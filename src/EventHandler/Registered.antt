-- ===== src/EventHandler/Registered.antt =====
-- What a handler's `events_map` says of the epoll instance in the kernel.
use yeti_lnp_resolver.Base.{
  ◌≡◌, refl, sym, ap, ◌∙◌, inl, inr, false, Option, none, some, List, [], ◌∷◌, ℤ, pos, eq_ℤ,
  eq_ℤ_iff, is_negative, if◌then◌else◌, Bool-cases, arith,
}
use yeti_lnp_resolver.Base.Assoc.{
  lookup, erase, HasUniqueKeys, lookup-erase_other, lookup-erase_self, erase-HasUniqueKeys,
}
use yeti_lnp_resolver.EventHandler.{
  Events, EpollOp, ctl_add, ctl_mod, ctl_del, EventHandler, assign, assigned, link, modify_found,
  modify_link, unlink,
}

pub lookup-assign :
    (fd j : ℤ) (ev : Events) (m : List (ℤ × Events))
    → lookup eq_ℤ j (assign fd ev m) ≡ (if eq_ℤ fd j then some ev else lookup eq_ℤ j m)
unfolding lookup assign
lookup-assign fd j ev [] = refl
lookup-assign fd j ev ((k, w) ∷ m) =
    ground (arith, eq_ℤ_iff k fd, eq_ℤ_iff k j, eq_ℤ_iff fd j, lookup-assign fd j ev m)

assign-HasUniqueKeys :
    (fd : ℤ) (ev : Events) (m : List (ℤ × Events))
    → HasUniqueKeys eq_ℤ m
    → HasUniqueKeys eq_ℤ (assign fd ev m)
unfolding lookup assign
assign-HasUniqueKeys fd ev [] u = (refl, tt)
assign-HasUniqueKeys fd ev ((k, w) ∷ m) u = elim (Bool-cases (eq_ℤ k fd)) [
  | inl same ↦ rw same u
  | inr differ ↦ rw differ (
    lookup-assign fd k ev m ∙ ground (arith, eq_ℤ_iff k fd, eq_ℤ_iff fd k, u.0),
    assign-HasUniqueKeys fd ev m u.1,
  )
]

-- What epoll_ctl(2) documents, of what epoll has registered for a descriptor: a call that returns 0
-- stores the mask, one that fails changes nothing, and no call touches another descriptor.
pub record EpollLaws (K : Type 0) (epoll_ctl : EpollOp → ℤ → K → ℤ × K)
    (registered : K → ℤ → Option Events) : Type 0 where
  pub added :
      (fd : ℤ) (ev : Events) (k : K)
      → (epoll_ctl (ctl_add ev) fd k).0 ≡ pos 0
      → registered (epoll_ctl (ctl_add ev) fd k).1 fd ≡ some ev
  pub modified :
      (fd : ℤ) (ev : Events) (k : K)
      → (epoll_ctl (ctl_mod ev) fd k).0 ≡ pos 0
      → registered (epoll_ctl (ctl_mod ev) fd k).1 fd ≡ some ev
  pub failed :
      (op : EpollOp) (fd j : ℤ) (k : K)
      → eq_ℤ (epoll_ctl op fd k).0 (pos 0) ≡ false
      → registered (epoll_ctl op fd k).1 j ≡ registered k j
  pub untouched :
      (op : EpollOp) (fd j : ℤ) (k : K)
      → eq_ℤ fd j ≡ false
      → registered (epoll_ctl op fd k).1 j ≡ registered k j

-- The calls that a handler's class makes.
pub data Call : Type 0 where
  linking modifying : ℤ → Events → Call
  unlinking : ℤ → Call

abbrev pub call : {K : Type 0} → (EpollOp → ℤ → K → ℤ × K) → Call → EventHandler K → EventHandler K
call epoll_ctl (linking fd ev) h = (link epoll_ctl fd ev h).1
call epoll_ctl (modifying fd ev) h = (modify_link epoll_ctl fd ev h).1
call epoll_ctl (unlinking fd) h = (unlink epoll_ctl fd h).1

abbrev pub calls :
    {K : Type 0} → (EpollOp → ℤ → K → ℤ × K) → List Call → EventHandler K → EventHandler K
calls epoll_ctl [] h = h
calls epoll_ctl (c ∷ cs) h = calls epoll_ctl cs (call epoll_ctl c h)

module _ {K : Type 0} (epoll_ctl : EpollOp → ℤ → K → ℤ × K) (registered : K → ℤ → Option Events)
    (laws : EpollLaws K epoll_ctl registered) where
  -- Each entry is what epoll has registered for its descriptor.
  abbrev Agrees : List (ℤ × Events) → K → Type 0
  Agrees m k = (fd : ℤ) (ev : Events) → lookup eq_ℤ fd m ≡ some ev → registered k fd ≡ some ev

  abbrev IsRegistered : EventHandler K → Type 0
  IsRegistered h = HasUniqueKeys eq_ℤ h.events_map × Agrees h.events_map h.kernel

  -- A descriptor that a call has set, and all others as before.
  assign-Agrees :
      (op : EpollOp) (fd : ℤ) (ev : Events) (m : List (ℤ × Events)) (k : K)
      → registered (epoll_ctl op fd k).1 fd ≡ some ev
      → Agrees m k
      → Agrees (assign fd ev m) (epoll_ctl op fd k).1
  assign-Agrees op fd ev m k set h j w found = elim (Bool-cases (eq_ℤ fd j)) [
    | inl same ↦
        ap (registered (epoll_ctl op fd k).1) (sym ((eq_ℤ_iff fd j).0 same))
        ∙ set
        ∙ sym (ap (λ b. if b then some ev else lookup eq_ℤ j m) same)
        ∙ sym (lookup-assign fd j ev m)
        ∙ found
    | inr differ ↦
        laws.untouched op fd j k differ
        ∙ h j w (
            sym (ap (λ b. if b then some ev else lookup eq_ℤ j m) differ)
            ∙ sym (lookup-assign fd j ev m)
            ∙ found)
  ]

  -- A call whose result is looked at before the entry is written.
  assigned-IsRegistered :
      (op : EpollOp) (fd : ℤ) (ev : Events) (h : EventHandler K)
      → ((epoll_ctl op fd h.kernel).0 ≡ pos 0
          → registered (epoll_ctl op fd h.kernel).1 fd ≡ some ev)
      → IsRegistered h
      → IsRegistered (assigned fd ev (epoll_ctl op fd h.kernel) h).1
  assigned-IsRegistered op fd ev h set (u, a) =
      elim (Bool-cases (eq_ℤ (epoll_ctl op fd h.kernel).0 (pos 0))) [
        | inl ok ↦ rw ok (
          assign-HasUniqueKeys fd ev h.events_map u,
          assign-Agrees op fd ev h.events_map h.kernel (set ((eq_ℤ_iff _ _).0 ok)) a,
        )
        | inr bad ↦ rw bad (u, λ j w found. laws.failed op fd j h.kernel bad ∙ a j w found)
      ]

  link-IsRegistered :
      (fd : ℤ) (ev : Events) (h : EventHandler K)
      → IsRegistered h
      → IsRegistered (link epoll_ctl fd ev h).1
  unfolding link
  link-IsRegistered fd ev h r = elim (Bool-cases (is_negative h.epoll_fd)) [
    | inl none_set ↦ rw none_set r
    | inr set ↦ rw set (assigned-IsRegistered (ctl_add ev) fd ev h (laws.added fd ev h.kernel) r)
  ]

  modify_found-IsRegistered :
      (fd : ℤ) (ev : Events) (h : EventHandler K) (o : Option Events)
      → IsRegistered h
      → IsRegistered (modify_found epoll_ctl fd ev h o).1
  modify_found-IsRegistered fd ev h none r = link-IsRegistered fd ev h r
  modify_found-IsRegistered fd ev h (some old) r = elim (Bool-cases (is_negative h.epoll_fd)) [
    | inl none_set ↦ rw none_set r
    | inr set ↦ rw set (assigned-IsRegistered (ctl_mod ev) fd ev h (laws.modified fd ev h.kernel) r)
  ]

  erase-Agrees :
      (fd : ℤ) (m : List (ℤ × Events)) (k : K)
      → HasUniqueKeys eq_ℤ m
      → Agrees m k
      → Agrees (erase eq_ℤ fd m) (epoll_ctl ctl_del fd k).1
  erase-Agrees fd m k u h j w found = elim (Bool-cases (eq_ℤ fd j)) [
    | inl same ↦
        let gone : lookup eq_ℤ j (erase eq_ℤ fd m) ≡ none =
          ap (λ i. lookup eq_ℤ i (erase eq_ℤ fd m)) (sym ((eq_ℤ_iff fd j).0 same))
          ∙ lookup-erase_self eq_ℤ eq_ℤ_iff fd m u in
        cc
    | inr differ ↦
        laws.untouched ctl_del fd j k differ
        ∙ h j w (sym (lookup-erase_other eq_ℤ eq_ℤ_iff fd j m differ) ∙ found)
  ]

  unlink-IsRegistered :
      (fd : ℤ) (h : EventHandler K) → IsRegistered h → IsRegistered (unlink epoll_ctl fd h).1
  unfolding unlink
  unlink-IsRegistered fd h r = elim (Bool-cases (is_negative h.epoll_fd)) [
    | inl none_set ↦ rw none_set r
    | inr set ↦ rw set (
      erase-HasUniqueKeys eq_ℤ eq_ℤ_iff fd h.events_map r.0,
      erase-Agrees fd h.events_map h.kernel r.0 r.1,
    )
  ]

  call-IsRegistered :
      (c : Call) (h : EventHandler K) → IsRegistered h → IsRegistered (call epoll_ctl c h)
  unfolding modify_link
  call-IsRegistered (linking fd ev) h r = link-IsRegistered fd ev h r
  call-IsRegistered (modifying fd ev) h r =
      modify_found-IsRegistered fd ev h (lookup eq_ℤ fd h.events_map) r
  call-IsRegistered (unlinking fd) h r = unlink-IsRegistered fd h r

  calls-IsRegistered :
      (cs : List Call) (h : EventHandler K) → IsRegistered h → IsRegistered (calls epoll_ctl cs h)
  calls-IsRegistered [] h r = r
  calls-IsRegistered (c ∷ cs) h r =
      calls-IsRegistered cs (call epoll_ctl c h) (call-IsRegistered c h r)

  -- Whatever a handler links, modifies and unlinks from an empty `events_map`, and whichever of
  -- the calls of `epoll_ctl` fail, each entry of `events_map` is the mask that epoll has
  -- registered for the descriptor, if `epoll_ctl` does what is documented.
  pub calls-registered :
      (cs : List Call) (h : EventHandler K) (fd : ℤ) (ev : Events)
      → h.events_map ≡ []
      → lookup eq_ℤ fd (calls epoll_ctl cs h).events_map ≡ some ev
      → registered (calls epoll_ctl cs h).kernel fd ≡ some ev
  unfolding lookup
  calls-registered cs h fd ev empty found =
      (calls-IsRegistered cs h (rw empty tt, rw empty (λ j w e. cc))).1 fd ev found
