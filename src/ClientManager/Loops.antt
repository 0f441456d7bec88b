-- ===== src/ClientManager/Loops.antt =====
-- The two loops of `reconcile_mls_groups` in src/client_manager.rs.
use pacto_bot_api.Prelude.{
  String, false, some, List, [], ◌∷◌, string_eq, pair_eq, ◌≡◌, refl, subst, ◌∙◌, arith, eq_iff, All,
}
use pacto_bot_api.Prelude.Dict.{get}
use pacto_bot_api.Errors.{Result, ok, err, ◌>>=◌, bind-eq-ok}
use pacto_bot_api.Db.Tables.{GroupRow, Tables}
use pacto_bot_api.Db.Groups.{upsert_mls_group_from_reconciliation}
use pacto_bot_api.Db.Keys.{IsKeyed}
use pacto_bot_api.Db.Reconciling.{Stands, Outcome, Leaves, upsert_reconciles}
use pacto_bot_api.ClientManager.Reconcile.{GroupInfo, has_wire, npubs_of, upsert_groups}

-- No row of the bot with a wire id that the engine has not is touched, and no marker of a reset.
abbrev pub LeavesMissing : String → List GroupInfo → Tables → Tables → Type 0
LeavesMissing b gs t t' =
    (t'.resets ≡ t.resets)
    × ((n : String) (r : GroupRow)
        → get (b, n) t.groups ≡ some r
        → has_wire r.wire_id gs ≡ false
        → get (b, n) t'.groups ≡ some r)

-- The wire ids of the engine's groups differ.
abbrev pub AreApart : List GroupInfo → Type 0
AreApart [] = Unit
AreApart (g ∷ gs) = (has_wire g.wire_id gs ≡ false) × AreApart gs

abbrev pub AllStand : String → List GroupInfo → Tables → Type 0
AllStand b gs t = All (λ g. Stands b g.wire_id g.name t) gs

-- What the loop over the engine's groups leaves.
pub record Upserted (b : String) (gs : List GroupInfo) (t t' : Tables) : Type 0 where
  pub keyed : IsKeyed t'
  pub standing : AllStand b gs t'
  pub leaving : LeavesMissing b gs t t'

module _ (to_bech32 : String → Result String) (b npub : String) where
  upsert-eq-ok :
      (g : GroupInfo) (t t' : Tables)
      → IsKeyed t
      → (npubs_of to_bech32 g.members >>= λ ms.
          upsert_mls_group_from_reconciliation b npub g.wire_id g.name ms t)
        ≡ ok t'
      → IsKeyed t' × Stands b g.wire_id g.name t' × Leaves b g.wire_id t t'
  upsert-eq-ok g t t' k h =
      let (ms, _, done) = bind-eq-ok (npubs_of to_bech32 g.members) _ h in
      subst (Outcome b npub g.wire_id g.name ms t k) done
        (upsert_reconciles b npub g.wire_id g.name ms t k)

  row_stays :
      (w n : String) (gs : List GroupInfo) (t t' : Tables)
      → LeavesMissing b gs t t'
      → has_wire w gs ≡ false
      → Stands b w n t
      → Stands b w n t'
  row_stays w n gs t t' leaves apart (r, here, same) = (r, leaves.1 n r here (ground arith), same)

  -- The loop goes on after the group `g`.
  abbrev go_on : List GroupInfo → Tables → Result Tables → Tables × Result (Unit {0})
  go_on gs t (err e) = (t, err e)
  go_on gs t (ok t') = upsert_groups to_bech32 b npub gs t'

  cons-Upserted :
      (g : GroupInfo) (gs : List GroupInfo) (t t' t'' : Tables)
      → has_wire g.wire_id gs ≡ false
      → IsKeyed t' × Stands b g.wire_id g.name t' × Leaves b g.wire_id t t'
      → Upserted b gs t' t''
      → Upserted b (g ∷ gs) t t''
  unfolding has_wire
  cons-Upserted g gs t t' t'' apart (k, stands, leaves) u = record {
    keyed = u.keyed;
    standing = (row_stays g.wire_id g.name gs t' t'' u.leaving apart stands, u.standing);
    leaving = (
      u.leaving.0 ∙ leaves.markers,
      λ n r here missing.
          u.leaving.1 n r
            (leaves.others b n r here (λ _. ground (arith, eq_iff g.wire_id r.wire_id)))
            (ground arith),
    );
  }

  go_on-Upserted :
      (g : GroupInfo) (gs : List GroupInfo) (t : Tables) (r : Result Tables)
      → has_wire g.wire_id gs ≡ false
      → ((t' : Tables)
          → r ≡ ok t'
          → IsKeyed t' × Stands b g.wire_id g.name t' × Leaves b g.wire_id t t')
      → ((t' : Tables)
          → IsKeyed t'
          → (upsert_groups to_bech32 b npub gs t').1 ≡ ok tt
          → Upserted b gs t' (upsert_groups to_bech32 b npub gs t').0)
      → (go_on gs t r).1 ≡ ok tt
      → Upserted b (g ∷ gs) t (go_on gs t r).0
  go_on-Upserted g gs t (err e) apart facts rest h = cc
  go_on-Upserted g gs t (ok t') apart facts rest h =
      cons-Upserted g gs t t' (upsert_groups to_bech32 b npub gs t').0 apart (facts t' refl)
        (rest t' (facts t' refl).0 h)

  pub upsert_groups-Upserted :
      (gs : List GroupInfo) (t : Tables)
      → AreApart gs
      → IsKeyed t
      → (upsert_groups to_bech32 b npub gs t).1 ≡ ok tt
      → Upserted b gs t (upsert_groups to_bech32 b npub gs t).0
  unfolding upsert_groups
  upsert_groups-Upserted [] t a k h = record {
    keyed = k;
    standing = tt;
    leaving = (refl, λ n r here missing. here);
  }
  upsert_groups-Upserted (g ∷ gs) t a k h =
      go_on-Upserted g gs t _ a.0 (λ t' e. upsert-eq-ok g t t' k e)
        (λ t' k' h'. upsert_groups-Upserted gs t' a.1 k' h') h
