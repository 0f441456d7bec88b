-- ===== src/MlsGroups/Creations.antt =====
-- A whole request of src/dispatch.rs that creates a group, from its inputs on.
use pacto_bot_api.Prelude.{
  String, [], ◌∷◌, ◌≡◌, refl, sym, subst, ◌⊎◌, inl, inr, string_eq, pair_eq,
}
use pacto_bot_api.Errors.{Result, ok, err, operation_timed_out}
use pacto_bot_api.Db.Tables.{Tables}
use pacto_bot_api.Db.Keys.{IsKeyed, insert_mls_group-IsKeyed, insert_mls_group_fresh}
use pacto_bot_api.Dispatch.{Dispatch}
use pacto_bot_api.MlsGroups.State.{World, Env, after}
use pacto_bot_api.MlsGroups.Preflight.{MlsGroupPreflight, extract_mls_group_inputs}
use pacto_bot_api.MlsGroups.Creating.{CreateMlsGroupParams, new_row, create_checked, create_act}
use pacto_bot_api.MlsGroups.Created.{Added, Made, create_checked_lem}

module _ {S : Type 0} (env : Env S) (p : CreateMlsGroupParams) (core : Dispatch) where
  -- What a request makes of the tables `t`, where `inputs` is what was looked up for it.
  abbrev pub Created : Result MlsGroupPreflight → Tables → World S × Result String → Type 0
  Created inputs t (w, ok wire_id) =
      (pre : MlsGroupPreflight) × (inputs ≡ ok pre) × Added env p.bot_id pre wire_id t w.tables
  Created inputs t (w, err e) =
      (w.tables ≡ t)
      ⊎ ((e ≡ operation_timed_out)
          × ((pre : MlsGroupPreflight) × (wire_id : String) × (inputs ≡ ok pre)
              × Added env p.bot_id pre wire_id t w.tables))

  Made-Created :
      (pre : MlsGroupPreflight) (t : Tables) (out : World S × Result String)
      → Made env p.bot_id pre t out
      → Created (ok pre) t out
  Made-Created pre t (w, ok wire_id) h = (pre, refl, h)
  Made-Created pre t (w, err e) (inl same) = inl same
  Made-Created pre t (w, err e) (inr (late, (wire_id, h))) = inr (late, (pre, wire_id, refl, h))

  by_inputs :
      (w : World S) (r : Result MlsGroupPreflight)
      → Created r w.tables (after (w, r) (create_checked env p.bot_id p.admins))
  by_inputs w (err e) = inl refl
  by_inputs w (ok pre) =
      Made-Created pre w.tables (create_checked env p.bot_id p.admins pre w)
        (create_checked_lem env p.bot_id pre p.admins w)

  -- Creating a group, past the check of the capability: on success exactly the new group is in the
  -- tables, under the name and the wire id that come back, both free before, with the recipient as
  -- its member; after an error the tables are as they were, or the error is the overall timeout and
  -- the row was written all the same.
  pub create_act_lem :
      (w : World S)
      → Created
          (extract_mls_group_inputs env core p.bot_id p.group_name p.recipient w)
          w.tables
          (create_act env p core w)
  unfolding create_act
  create_act_lem w =
      by_inputs w (extract_mls_group_inputs env core p.bot_id p.group_name p.recipient w)

  Added-IsKeyed :
      (pre : MlsGroupPreflight) (wire_id : String) (t t' : Tables)
      → Added env p.bot_id pre wire_id t t'
      → IsKeyed t
      → IsKeyed t'
  Added-IsKeyed pre wire_id t t' (absent, fresh, grown) keyed = subst IsKeyed (sym grown) (
      insert_mls_group-IsKeyed (p.bot_id, pre.group_name) (new_row pre wire_id)
        (pre.recipient_npub ∷ []) t _
        (insert_mls_group_fresh (p.bot_id, pre.group_name) (new_row pre wire_id)
          (pre.recipient_npub ∷ []) t absent fresh)
        keyed)

  Created-IsKeyed :
      (inputs : Result MlsGroupPreflight) (t : Tables) (out : World S × Result String)
      → Created inputs t out
      → IsKeyed t
      → IsKeyed out.0.tables
  Created-IsKeyed inputs t (w, ok wire_id) (pre, _, h) keyed =
      Added-IsKeyed pre wire_id t w.tables h keyed
  Created-IsKeyed inputs t (w, err e) (inl same) keyed = subst IsKeyed (sym same) keyed
  Created-IsKeyed inputs t (w, err e) (inr (_, (pre, wire_id, _, h))) keyed =
      Added-IsKeyed pre wire_id t w.tables h keyed

  pub create_act-IsKeyed :
      (w : World S) → IsKeyed w.tables → IsKeyed (create_act env p core w).0.tables
  create_act-IsKeyed w keyed =
      Created-IsKeyed (extract_mls_group_inputs env core p.bot_id p.group_name p.recipient w)
        w.tables (create_act env p core w) (create_act_lem w) keyed
