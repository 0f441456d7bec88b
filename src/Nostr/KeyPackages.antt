-- ===== src/Nostr/KeyPackages.antt =====
-- `NostrClient::fetch_key_package` of src/nostr.rs: which key package of a recipient is taken from
-- what the relays answer. The relays and the check of a signature are parameters.
use pacto_bot_api.Prelude.{
  ℕ, ◌+◌, ◌-◌, ◌%◌, ◌^◌, String, Bool, true, false, not, ◌&&◌, ◌||◌, Option, none, some, List, [],
  ◌∷◌, ◌==◌, string_eq, nat_eq, ltb, if◌then◌else◌,
}
use pacto_bot_api.Nostr.{PublicKey, Event}
use pacto_bot_api.Errors.{Result, ok, err, DaemonError, key_package_not_found, stale_key_package}

-- The variables of the loop.
pub record Selection : Type 0 where
  pub selected : Option Event
  pub selected_ts : ℕ
  pub saw_invalid : Bool

abbrev pub nothing_selected : Selection
nothing_selected = record { selected = none; selected_ts = 0; saw_invalid = false }

-- What the request of one key package fixes: the signature check, the recipient, the clock, and the
-- freshness window, in seconds.
pub record Request : Type 0 where
  pub verify : Event → Bool
  pub recipient : PublicKey
  pub now : ℕ
  pub freshness : ℕ

-- Verified, of one of the two kinds, and the recipient's.
unfoldable pub is_genuine : Request → Event → Bool
is_genuine r e = r.verify e && ((e.kind == 443 || e.kind == 30443) && e.pubkey == r.recipient)

-- Neither more than a minute ahead nor older than the window.
unfoldable pub is_current : Request → Event → Bool
is_current r e = not (ltb (r.now + 60) e.created_at) && not (ltb (e.created_at + r.freshness) r.now)

-- The body of the loop over the events.
unfoldable pub consider : Request → Event → Selection → Selection
unfolding is_genuine is_current
consider r e sel =
    if not (is_genuine r e)
    then record sel { saw_invalid = true }
    else if not (is_current r e)
    then sel
    else if ltb sel.selected_ts e.created_at
    then record sel { selected = some e; selected_ts = e.created_at }
    else sel

unfoldable pub select : Request → List Event → Selection → Selection
unfolding consider
select r [] sel = sel
select r (e ∷ es) sel = select r es (consider r e sel)

-- `now_secs - selected_ts` on `u64`, as a release build computes it.
unfoldable pub age : ℕ → ℕ → ℕ
age now ts = (now + 2 ^ 64 - ts) % 2 ^ 64

abbrev pub chosen : Request → Selection → Result (Event × ℕ)
chosen r sel = elim sel.selected [
  | some e ↦ ok (e, age r.now sel.selected_ts)
  | none ↦ if sel.saw_invalid then err DaemonError.invalid_key_package else err stale_key_package
]

-- `NostrClient::fetch_key_package`, on what the relays gave or their error, and the name of the
-- recipient.
unfoldable pub fetch_key_package : Request → String → Result (List Event) → Result (Event × ℕ)
unfolding select age
fetch_key_package r recipient_npub (err e) = err e
fetch_key_package r recipient_npub (ok []) = err (key_package_not_found recipient_npub)
fetch_key_package r recipient_npub (ok (e ∷ es)) = chosen r (select r (e ∷ es) nothing_selected)
