-- ===== src/Forwarding/Race.antt =====
-- One response is passed on, and every other is closed.
use verm.Prelude.{
  map, ◌≤◌, true, false, Option, none, some, List, [], ◌∷◌, ◌++◌, length, ◌≡◌, ◌↔◌, refl, arith,
}
use verm.Http.{Response}
use verm.Forwarding.{successful, Reply, gather, first_reply, forward_read, pass_on}

-- The successful responses, in the order in which they come.
unfoldable pub replies : List (Option Reply) → List Reply
replies [] = []
replies (none ∷ responses) = replies responses
replies (some r ∷ responses) = r ∷ replies responses

gather_closing : (responses : List (Option Reply)) → gather true responses ≡ ([], replies responses)
unfolding gather replies
gather_closing [] = refl
gather_closing (none ∷ responses) = gather_closing responses
gather_closing (some r ∷ responses) = rw (gather_closing responses) refl

-- Of the successful responses, the first is passed on, nothing else is, and all the others are closed.
pub gather_first :
    (responses : List (Option Reply))
    → ((gather false responses).0 ++ (gather false responses).1 ≡ replies responses)
      × (first_reply (gather false responses).0 ≡ first_reply (replies responses))
      × (length (gather false responses).0 ≤ 1)
unfolding gather replies first_reply
gather_first [] = (refl, refl, omega arith)
gather_first (none ∷ responses) = gather_first responses
gather_first (some r ∷ responses) = rw (gather_closing responses) (refl, refl, omega arith)

-- A read is forwarded in vain exactly if no target has answered with status 200.
pub forward_read-none_iff :
    (outcomes : List (Option Reply)) (w : Response)
    → (forward_read outcomes w ≡ none) ↔ (replies (map successful outcomes) ≡ [])
unfolding forward_read pass_on first_reply
forward_read-none_iff outcomes w =
    rw ((gather_first (map successful outcomes)).1) (passed (replies (map successful outcomes)))
  where
    passed : (rs : List Reply) → (pass_on w (first_reply rs) ≡ none) ↔ (rs ≡ [])
    passed [] = (λ e. refl, λ e. refl)
    passed (r ∷ rs) = (λ e. cc, λ e. cc)
