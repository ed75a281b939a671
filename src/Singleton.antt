-- ===== src/Singleton.antt =====
-- src/singleton.h: the template `singleton`, one object that all callers share. The mutex makes each call
-- one step; a constructor that throws leaves it locked.
pub mod Once
use yeti_lnp_resolver.Base.{
  Bool, true, false, Option, none, some, List, [], ◌∷◌, ◌⊎◌, inl, inr, Bytes, if◌then◌else◌,
}

-- `_instance` and `_inst_m`
pub record Singleton (T : Type 0) : Type 0 where
  pub stored : Option T
  pub is_locked : Bool

-- How a call ended: with a value, with an exception, or never, as the mutex is locked.
pub data Called (A : Type 0) : Type 0 where
  gives : A → Called A
  throws : Bytes → Called A
  hangs : Called A

module _ {T : Type 0} where
  abbrev pub no_instance : Singleton T
  no_instance = record { stored = none; is_locked = false }

  abbrev pub constructed : Bytes ⊎ T → Singleton T → Called T × Singleton T
  constructed (inl what) s = (throws what, record s { is_locked = true })
  constructed (inr x) s = (gives x, record s { stored = some x })

  abbrev pub instance_unlocked : Bytes ⊎ T → Singleton T → Option T → Called T × Singleton T
  instance_unlocked built s none = constructed built s
  instance_unlocked built s (some x) = (gives x, s)

  -- `instance`; the argument is what the constructor does, if it is called.
  unfoldable pub get_instance : Bytes ⊎ T → Singleton T → Called T × Singleton T
  get_instance built s = if s.is_locked then (hangs, s) else instance_unlocked built s s.stored

  abbrev pub is_stored : Option T → Bool
  is_stored none = false
  is_stored (some x) = true

  unfoldable pub have_instance : Singleton T → Called Bool
  have_instance s = if s.is_locked then hangs else gives (is_stored s.stored)

  -- `dispose`
  unfoldable pub dispose : Singleton T → Called (Unit {0}) × Singleton T
  dispose s = if s.is_locked then (hangs, s) else (gives tt, record s { stored = none })
