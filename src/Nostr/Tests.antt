-- ===== src/Nostr/Tests.antt =====
-- A fetch of key packages of src/nostr.rs, one of them dated half a minute ahead.
use pacto_bot_api.Prelude.{
  ℕ, ◌+◌, ◌-◌, ◌≤◌, ◌<◌, ◌^◌, true, [], ◌∷◌, ◌≡◌, ◌⊎◌, refl, All, arith, string_eq,
}
use pacto_bot_api.Nostr.{Event}
use pacto_bot_api.Errors.{ok}
use pacto_bot_api.Nostr.KeyPackages.{
  Request, fetch_key_package, select, consider, is_genuine, is_current, age,
}
use pacto_bot_api.Nostr.Fetched.{Among, is_acceptable, fetch_key_package_lem, age_lem}

abbrev key_package : ℕ → Event
key_package at = record {
  id = "id";
  pubkey = "bob";
  created_at = at;
  kind = 443;
  tags = [];
  content = "key";
  sig = "sig";
}

abbrev request : Request
request = record { verify = λ _. true; recipient = "bob"; now = 1000; freshness = 300 }

fetched :
    fetch_key_package request "npub"
      (ok (key_package 900 ∷ key_package 1030 ∷ key_package 2000 ∷ []))
    ≡ ok (key_package 1030, 2 ^ 64 - 30)
unfolding fetch_key_package select consider is_genuine is_current age
fetched = refl

fetch_key_package_lem_example :
    (is_acceptable request (key_package 1030) ≡ true)
    × Among (key_package 1030) (key_package 900 ∷ key_package 1030 ∷ key_package 2000 ∷ [])
    × All
        (λ x. is_acceptable request x ≡ true → x.created_at ≤ 1030)
        (key_package 900 ∷ key_package 1030 ∷ key_package 2000 ∷ [])
    × (2 ^ 64 - 30 ≡ age 1000 1030)
fetch_key_package_lem_example =
    fetch_key_package_lem request "npub"
      (key_package 900 ∷ key_package 1030 ∷ key_package 2000 ∷ []) (key_package 1030) (2 ^ 64 - 30)
      fetched

age_lem_example :
    ((1030 ≤ 1000) × (2 ^ 64 - 30 ≡ 1000 - 1030))
    ⊎ ((1000 < 1030) × (1030 ≤ 1000 + 60) × (2 ^ 64 - 60 ≤ 2 ^ 64 - 30))
age_lem_example =
    age_lem request "npub" (key_package 900 ∷ key_package 1030 ∷ key_package 2000 ∷ [])
      (key_package 1030) (2 ^ 64 - 30) fetched (omega arith)
