-- ===== src/Resolver/Log.antt =====
-- The effects of the resolver as the clients see them: which datagrams are final replies.
use yeti_lnp_resolver.Base.{
  ℕ, suc, ◌+◌, ◌≡◌, ◌⊎◌, inl, inr, List, [], ◌∷◌, ◌++◌, arith, ltb, if◌then◌else◌, length, pos,
  negsuc,
}
use yeti_lnp_resolver.Types.{ResolverRequest, ResolverError}
use yeti_lnp_resolver.Resolver.Reply.{
  reply_of, error_reply_of, tagged_reply, json_reply, tagged_error_reply, json_error_reply,
}
use yeti_lnp_resolver.Resolver.State.{Effect, send_data, Resolver, send_reply, send_error_reply}

-- The provisional reply is the four bytes of the id, and every other datagram is longer.
abbrev pub final : Effect → ℕ
final (send_data client b) = if ltb 4 (length b) then 1 else 0
final _ = 0

abbrev pub finals : List Effect → ℕ
finals [] = 0
finals (e ∷ es) = final e + finals es

pub finals-append : (xs ys : List Effect) → finals (xs ++ ys) ≡ finals xs + finals ys
finals-append [] ys = omega arith
finals-append (e ∷ xs) ys = omega (arith, finals-append xs ys)

-- The final replies sent, and those still owed.
abbrev pub answers : Resolver → ℕ
answers s = finals s.effects + length s.waiting_requests

-- The type of a request whose header has been read, or forced: a tagged or a CNAM request.
abbrev pub HasVersion : ResolverRequest → Type 0
HasVersion r = (r.type ≡ pos 0) ⊎ (r.type ≡ pos 1)

pub finals-snoc : (es : List Effect) (e : Effect) → finals (es ++ (e ∷ [])) ≡ finals es + final e
finals-snoc es e = omega (arith, finals-append es (e ∷ []))

-- A reply to a tagged or a CNAM request is one final reply, and changes nothing else.
pub send_reply-answers :
    (r : ResolverRequest) (s : Resolver) → HasVersion r → answers (send_reply r s) ≡ suc (answers s)
unfolding send_reply reply_of tagged_reply json_reply
send_reply-answers r s (inl e) =
    ground (arith, finals-snoc s.effects (send_data r.client_info (tagged_reply r)))
send_reply-answers r s (inr e) =
    ground (arith, finals-snoc s.effects (send_data r.client_info (json_reply r)))

pub send_error_reply-answers :
    (r : ResolverRequest) (e : ResolverError) (s : Resolver)
    → HasVersion r
    → answers (send_error_reply r e s) ≡ suc (answers s)
unfolding send_error_reply error_reply_of tagged_error_reply json_error_reply
send_error_reply-answers r x s (inl e) =
    ground
      (arith, finals-snoc s.effects (send_data r.client_info (tagged_error_reply r x.code x.what)))
send_error_reply-answers r x s (inr e) =
    ground
      (arith, finals-snoc s.effects (send_data r.client_info (json_error_reply r x.code x.what)))

-- A request whose type was never read, -1, gets no error reply.
pub send_error_reply_untyped :
    (r : ResolverRequest) (e : ResolverError) (s : Resolver)
    → r.type ≡ negsuc 0
    → send_error_reply r e s ≡ s
unfolding send_error_reply error_reply_of
send_error_reply_untyped r x s e = rw e
