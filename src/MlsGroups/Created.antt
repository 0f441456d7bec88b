-- ===== src/MlsGroups/Created.antt =====
-- What creating a group in src/dispatch.rs leaves in the tables, however it ends.
use pacto_bot_api.Prelude.{
  ℕ, String, Option, none, some, List, [], ◌∷◌, ◌≡◌, refl, ap, subst, ◌∙◌, ◌⊎◌, inl, inr, string_eq,
  pair_eq, ◌==◌, Bool-cases,
}
use pacto_bot_api.Prelude.Dict.{get}
use pacto_bot_api.Nostr.{PublicKey, Event, UnsignedEvent}
use pacto_bot_api.Errors.{DaemonError, Result, ok, err, operation_timed_out}
use pacto_bot_api.Db.Tables.{Tables}
use pacto_bot_api.Db.Groups.{insert_mls_group, find_wire}
use pacto_bot_api.Db.Keys.{insert_mls_group-eq-ok, with_group}
use pacto_bot_api.Mls.Worker.{create_group}
use pacto_bot_api.MlsGroups.State.{
  World, Env, welcome, Pace, in_time, cut_done, cut_undone, Act, after, relay,
}
use pacto_bot_api.MlsGroups.Waiting.{Timed, came, failed, expired, go_on, in_block, await, timeout}
use pacto_bot_api.MlsGroups.Preflight.{MlsGroupPreflight}
use pacto_bot_api.MlsGroups.Creating.{
  new_row, free_name, key_package_of, fetch, admin_pubkeys, refuse_existing, insert_group,
  new_group, config_of, welcome_and_insert, create_block, create_checked,
}
use pacto_bot_api.MlsGroups.Rules.{await_keeps, checked-state, asked-tables, relay-tables}

module _ {S : Type 0} (env : Env S) (bot_id : String) (pre : MlsGroupPreflight) where
  -- The tables `t'` have one group more than `t`, under a name and a wire id that were free, and the
  -- recipient as its member.
  abbrev pub Added : String → Tables → Tables → Type 0
  Added wire_id t t' =
      (get (bot_id, pre.group_name) t.groups ≡ none)
      × (find_wire bot_id wire_id t.groups ≡ none)
      × (t' ≡ with_group (bot_id, pre.group_name) (new_row pre wire_id) (pre.recipient_npub ∷ []) t)

  abbrev Inserted : Tables → World S × Result (Unit {0}) → String → Type 0
  Inserted t (w, ok tt) wire_id = Added wire_id t w.tables
  Inserted t (w, err _) wire_id = w.tables ≡ t

  insert_group_lem :
      (wire_id : String) (w : World S)
      → Inserted w.tables (insert_group env bot_id pre wire_id w) wire_id
  unfolding insert_group
  insert_group_lem wire_id w = by_fault env.insert_mls_group refl
    where
      by_fault :
          (o : Option DaemonError)
          → env.insert_mls_group ≡ o
          → Inserted w.tables (insert_group env bot_id pre wire_id w) wire_id
      by_fault (some e) h = rw (h, insert_group) refl
      by_fault none h =
          by_result
            (insert_mls_group (bot_id, pre.group_name) (new_row pre wire_id)
              (pre.recipient_npub ∷ []) w.tables)
            refl
        where
          by_result :
              (r : Result Tables)
              → insert_mls_group
                  (bot_id, pre.group_name)
                  (new_row pre wire_id)
                  (pre.recipient_npub ∷ [])
                  w.tables
                ≡ r
              → Inserted w.tables (insert_group env bot_id pre wire_id w) wire_id
          by_result (ok t) g =
              rw (h, insert_group)
                (rw (g) (
                  insert_mls_group-eq-ok (bot_id, pre.group_name) (new_row pre wire_id)
                    (pre.recipient_npub ∷ []) w.tables t g))
          by_result (err e) g = rw (h, insert_group) (rw (g) refl)

  -- The block, by how it ends.
  abbrev Block : Tables → World S × Timed String → Type 0
  Block t (w, came wire_id) = Added wire_id t w.tables
  Block t (w, failed e) = w.tables ≡ t
  Block t (w, expired) = (w.tables ≡ t) ⊎ ((wire_id : String) × Added wire_id t w.tables)

  before_Block :
      {A : Type 0} (t : Tables) (out : World S × Timed A)
      (rest : A → World S → World S × Timed String)
      → out.0.tables ≡ t
      → ((a : A) (w : World S) → w.tables ≡ t → Block t (rest a w))
      → Block t (go_on out rest)
  before_Block t (w, came a) rest same next = next a w same
  before_Block t (w, failed e) rest same next = same
  before_Block t (w, expired) rest same next = inl same

  write_ends :
      (t : Tables) (wire_id : String) (out : World S × Result (Unit {0}))
      → Inserted t out wire_id
      → Block t (go_on (in_block out) (λ _ w'. (w', came wire_id)))
  write_ends t wire_id (w, ok tt) h = h
  write_ends t wire_id (w, err e) h = h

  cut_write :
      (t : Tables) (wire_id : String) (out : World S × Result (Unit {0}))
      → Inserted t out wire_id
      → (out.0.tables ≡ t) ⊎ ((x : String) × Added x t out.0.tables)
  cut_write t wire_id (w, ok tt) h = inr (wire_id, h)
  cut_write t wire_id (w, err e) h = inl h

  await_write :
      (wire_id : String) (pace : Pace) (w : World S)
      → Block w.tables
          (go_on (await pace (insert_group env bot_id pre wire_id) w) (λ _ w'. (w', came wire_id)))
  await_write wire_id in_time w =
      write_ends w.tables wire_id (insert_group env bot_id pre wire_id w)
        (insert_group_lem wire_id w)
  await_write wire_id cut_done w =
      cut_write w.tables wire_id (insert_group env bot_id pre wire_id w)
        (insert_group_lem wire_id w)
  await_write wire_id cut_undone w = inl refl

  welcome_and_insert_lem :
      (made : String × UnsignedEvent) (t : Tables) (w : World S)
      → w.tables ≡ t
      → Block t (welcome_and_insert env bot_id pre made w)
  unfolding welcome_and_insert
  welcome_and_insert_lem (wire_id, rumor) t w same =
      before_Block t
        (await (env.send_pace (welcome pre.recipient_pk rumor))
          (relay env (welcome pre.recipient_pk rumor)) w)
        _
        (await_keeps (λ v. v.tables) (env.send_pace (welcome pre.recipient_pk rumor))
            (relay env (welcome pre.recipient_pk rumor)) w
            (relay-tables env (welcome pre.recipient_pk rumor) w)
          ∙ same)
        (λ _ v here.
          subst
            (λ u. Block u (
              go_on (await env.insert_pace (insert_group env bot_id pre wire_id) v)
                (λ _ w'. (w', came wire_id))))
            here (await_write wire_id env.insert_pace v))

  pub fetch-tables : (w : World S) → (fetch env pre w).0.tables ≡ w.tables
  unfolding fetch
  fetch-tables w = by_package _
    where
      by_package : (r : Result (Event × ℕ)) → (key_package_of env r w).0.tables ≡ w.tables
      by_package (ok p) = refl
      by_package (err e) = refl

  new_group-tables :
      (admins : List PublicKey) (key_package : Event) (w : World S)
      → (new_group env bot_id pre admins key_package w).0.tables ≡ w.tables
  unfolding new_group
  new_group-tables admins key_package w =
      asked-tables bot_id
        (create_group env.mdk env.verify pre.creator_pubkey pre.recipient_pk key_package
          (config_of env pre admins))
        w

  create_block_lem :
      (admins : List PublicKey) (w : World S)
      → Block w.tables (create_block env bot_id pre admins w)
  unfolding create_block
  create_block_lem admins w =
      before_Block w.tables (await env.fetch_pace (fetch env pre) w) _
        (await_keeps (λ v. v.tables) env.fetch_pace (fetch env pre) w (fetch-tables w))
        (λ key_package v same.
          before_Block w.tables
            (await env.engine_pace (new_group env bot_id pre admins key_package) v)
            (welcome_and_insert env bot_id pre)
            (await_keeps (λ u. u.tables) env.engine_pace
                (new_group env bot_id pre admins key_package) v
                (new_group-tables admins key_package v)
              ∙ same)
            (λ made u here. welcome_and_insert_lem made w.tables u here))

  -- A whole request, by its result.
  abbrev pub Made : Tables → World S × Result String → Type 0
  Made t (w, ok wire_id) = Added wire_id t w.tables
  Made t (w, err e) =
      (w.tables ≡ t) ⊎ ((e ≡ operation_timed_out) × ((wire_id : String) × Added wire_id t w.tables))

  timeout-Made : (t : Tables) (out : World S × Timed String) → Block t out → Made t (timeout out)
  timeout-Made t (w, came wire_id) h = h
  timeout-Made t (w, failed e) h = inl h
  timeout-Made t (w, expired) (inl h) = inl h
  timeout-Made t (w, expired) (inr h) = inr (refl, h)

  before_Made :
      {A : Type 0} (t : Tables) (out : World S × Result A) (rest : A → Act S String)
      → out.0.tables ≡ t
      → ((a : A) (w : World S) → w.tables ≡ t → Made t (rest a w))
      → Made t (after out rest)
  before_Made t (w, ok a) rest same next = next a w same
  before_Made t (w, err e) rest same next = inl same

  refuse_existing-tables : (w : World S) → (refuse_existing env bot_id pre w).0.tables ≡ w.tables
  unfolding refuse_existing
  refuse_existing-tables w =
      ap (λ v. v.tables) (checked-state env.load_mls_group (λ v. free_name bot_id pre v.tables) w)

  pub create_checked_lem :
      (admins : Option (List String)) (w : World S)
      → Made w.tables (create_checked env bot_id admins pre w)
  unfolding create_checked
  create_checked_lem admins w = elim (Bool-cases (pre.recipient_npub == pre.creator_npub)) [
    | inl own ↦ rw own (inl refl)
    | inr other ↦ rw other (
        before_Made w.tables (w, admin_pubkeys env pre admins) _ refl
          (λ keys v same.
            before_Made w.tables (refuse_existing env bot_id pre v) _
              (refuse_existing-tables v ∙ same)
              (λ _ u here.
                subst (λ t. Made t (timeout (create_block env bot_id pre keys u))) here
                  (timeout-Made u.tables (create_block env bot_id pre keys u)
                    (create_block_lem keys u)))))
  ]
