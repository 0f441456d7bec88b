-- ===== src/MlsGroups/Trimmed.antt =====
-- Trimming in src/dispatch.rs is done once and for all.
use Prim.Native.Char.{Char}
use pacto_bot_api.Prelude.{
  ◌≤◌, String, false, ◌&&◌, ◌==◌, string_eq, ◌≡◌, ◌≢◌, refl, sym, ap, subst, ◌∙◌, arith, eq_iff,
  Bool-cases, inl, inr,
}
use pacto_bot_api.Errors.{ok}
use pacto_bot_api.MlsGroups.Names.{
  is_ascii_whitespace, trim_start, trim_end, trim_ascii, byte_len, any_refused, check_trimmed,
  validate_group_name,
}

trim_end_twice : (s : String) → trim_end (trim_end s) ≡ trim_end s
unfolding trim_end
trim_end_twice String.[] = refl
trim_end_twice (String.◌∷◌ c s) = elim (Bool-cases (is_ascii_whitespace c && trim_end s == "")) [
  | inl e ↦ rw e refl
  | inr e ↦ rw e (rw (trim_end_twice s) (rw e refl))
]

start_kept :
    (c : Char) (s : String)
    → is_ascii_whitespace c ≡ false
    → trim_start (String.◌∷◌ c s) ≡ String.◌∷◌ c s
unfolding trim_start
start_kept c s e = rw e refl

end_kept :
    (c : Char) (s : String)
    → is_ascii_whitespace c ≡ false
    → trim_end (String.◌∷◌ c s) ≡ String.◌∷◌ c (trim_end s)
unfolding trim_end
end_kept c s e = rw e refl

start_of_nothing : trim_start (trim_end "") ≡ trim_end ""
unfolding trim_start trim_end
start_of_nothing = refl

start_of_trimmed : (s : String) → trim_start (trim_end (trim_start s)) ≡ trim_end (trim_start s)
unfolding trim_start
start_of_trimmed String.[] = start_of_nothing
start_of_trimmed (String.◌∷◌ c s) = elim (Bool-cases (is_ascii_whitespace c)) [
  | inl e ↦ rw e (start_of_trimmed s)
  | inr e ↦ rw e (rw (end_kept c s e) (start_kept c (trim_end s) e))
]

trim_ascii_twice : (s : String) → trim_ascii (trim_ascii s) ≡ trim_ascii s
unfolding trim_ascii
trim_ascii_twice s = ap trim_end (start_of_trimmed s) ∙ trim_end_twice (trim_start s)

check_trimmed-eq-ok :
    (t n : String)
    → check_trimmed t ≡ ok n
    → (n ≡ t) × (t ≢ "") × (byte_len t ≤ 128) × (any_refused t ≡ false)
unfolding check_trimmed
check_trimmed-eq-ok t n h = (ground arith, ground (arith, eq_iff t ""), ground arith, ground arith)

-- A group name that is accepted is the given one without the ASCII white space around it: not empty,
-- at most 128 bytes, with no ASCII control character and no path separator; and it is accepted again
-- as it is.
pub validate_group_name_lem :
    (name n : String)
    → validate_group_name name ≡ ok n
    → (n ≡ trim_ascii name)
      × (n ≢ "")
      × (byte_len n ≤ 128)
      × (any_refused n ≡ false)
      × (validate_group_name n ≡ ok n)
unfolding validate_group_name
validate_group_name_lem name n h =
    let (same, some_text, short, plain) = check_trimmed-eq-ok (trim_ascii name) n h in
    (
      same,
      (λ e. some_text (sym same ∙ e)),
      subst (λ t. byte_len t ≤ 128) (sym same) short,
      ap any_refused same ∙ plain,
      ap check_trimmed (ap trim_ascii same ∙ trim_ascii_twice name) ∙ h,
    )
