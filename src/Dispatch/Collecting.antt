-- ===== src/Dispatch/Collecting.antt =====
-- The loop of src/dispatch.rs that receives responses, against a description without a loop.
use pacto_bot_api.Prelude.{
  ℕ, zero, suc, String, Bool, true, false, ◌||◌, List, [], ◌∷◌, ◌≡◌, refl, ap,
}
use pacto_bot_api.Dispatch.State.{HandlerAction, ack, reply, send_dm, defer, ignore}
use pacto_bot_api.Dispatch.Responses.{collect}

abbrev is_defer : HandlerAction → Bool
is_defer defer = true
is_defer _ = false

abbrev Responses : Type 0
Responses = List (String × HandlerAction)

-- The first `n` responses.
unfoldable pub take : ℕ → Responses → Responses
take zero rs = []
take (suc n) [] = []
take (suc n) (r ∷ rs) = r ∷ take n rs

unfoldable pub has_defer : Responses → Bool
has_defer [] = false
has_defer (r ∷ rs) = is_defer r.1 || has_defer rs

-- The responses ahead of the first `defer`.
unfoldable pub before_defer : Responses → Responses
before_defer [] = []
before_defer ((hid, defer) ∷ rs) = []
before_defer ((hid, action) ∷ rs) = (hid, action) ∷ before_defer rs

-- Of what arrives in time the loop looks at as many responses as there are handlers: it answers
-- those ahead of the first `defer` among them, and reports a `defer` when there is one.
pub collect_lem :
    (n : ℕ) (rs : Responses)
    → ((collect n rs).responses ≡ before_defer (take n rs))
      × ((collect n rs).any_defer ≡ has_defer (take n rs))
unfolding collect take has_defer before_defer
collect_lem zero rs = (refl, refl)
collect_lem (suc n) [] = (refl, refl)
collect_lem (suc n) ((hid, ack) ∷ rs) =
    let ih = collect_lem n rs in (ap (λ l. (hid, ack) ∷ l) ih.0, ih.1)
collect_lem (suc n) ((hid, reply t) ∷ rs) =
    let ih = collect_lem n rs in (ap (λ l. (hid, reply t) ∷ l) ih.0, ih.1)
collect_lem (suc n) ((hid, send_dm t) ∷ rs) =
    let ih = collect_lem n rs in (ap (λ l. (hid, send_dm t) ∷ l) ih.0, ih.1)
collect_lem (suc n) ((hid, defer) ∷ rs) = (refl, refl)
collect_lem (suc n) ((hid, ignore) ∷ rs) =
    let ih = collect_lem n rs in (ap (λ l. (hid, ignore) ∷ l) ih.0, ih.1)
