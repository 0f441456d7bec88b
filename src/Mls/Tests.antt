-- ===== src/Mls/Tests.antt =====
-- The MLS engine's commands on the small library.
use pacto_bot_api.Prelude.{true, false, none, [], ◌∷◌, ◌≡◌, refl, string_eq, contains}
use pacto_bot_api.Nostr.{Event}
use pacto_bot_api.Mls.Worker.{find_by_wire_id, add_member, extend_admins}
use pacto_bot_api.Mls.Joining.{Says, add_member_lem}
use pacto_bot_api.Mls.Sample.{Engine, squad, event_of, sample, sample-HasRoster}

abbrev started : Engine
started = record { members = "bot" ∷ "ann" ∷ []; staged = none; is_last_admin = false }

abbrev package_of_ann : Event
package_of_ann = record (event_of "package") { pubkey = "ann"; kind = 443 }

-- Ann is restored: she was a member, and is one again.
add_member_lem_example :
    Says sample
      (λ s g. s.members)
      sample-HasRoster
      "group"
      "ann"
      started
      (add_member sample (λ e. true) "wire" "ann" package_of_ann started)
unfolding find_by_wire_id
add_member_lem_example =
    add_member_lem sample (λ s g. s.members) sample-HasRoster (λ e. true) "wire" "ann"
      package_of_ann started (squad ∷ []) squad refl refl

extended : extend_admins ("bot" ∷ []) ("bot" ∷ "ann" ∷ []) ≡ ("bot" ∷ "ann" ∷ [])
unfolding extend_admins contains
extended = refl
