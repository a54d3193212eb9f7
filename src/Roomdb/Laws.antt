-- ===== src/Roomdb/Laws.antt =====
-- roomdb/types.go: what the parsers and the validity checks promise.
use go_ssb_room.Base.{ℕ, zero, suc, ◌≡◌, refl, ◌<◌, ◌≤◌, none, Text, text_eq, arith, ◌↔◌}
use go_ssb_room.Roomdb.{
  Role, PrivacyMode, check_role, check_mode, parse_privacy_mode, privacy_mode_string, role_string,
  unmarshal_role, ok,
}

-- Checks of a role and of a privacy mode pass exactly on the three named values of each.
pub check_role_iff : (r : Role) → (check_role r ≡ none) ↔ ((0 < r) × (r ≤ 3))
unfolding check_role
check_role_iff r = ground arith

pub check_mode_iff : (pm : PrivacyMode) → (check_mode pm ≡ none) ↔ ((0 < pm) × (pm ≤ 3))
unfolding check_mode
check_mode_iff pm = ground arith

-- A privacy mode that passes the check is read back from its printed name, whatever prints numbers.
pub parse_privacy_mode-string :
    (itoa : ℕ → Text) (pm : PrivacyMode)
    → check_mode pm ≡ none
    → parse_privacy_mode (privacy_mode_string itoa pm) ≡ pm
unfolding check_mode parse_privacy_mode privacy_mode_string text_eq
parse_privacy_mode-string itoa zero h = absurd (ground arith)
parse_privacy_mode-string itoa (suc zero) h = refl
parse_privacy_mode-string itoa (suc (suc zero)) h = refl
parse_privacy_mode-string itoa (suc (suc (suc zero))) h = refl
parse_privacy_mode-string itoa (suc (suc (suc (suc n)))) h = absurd (ground arith)

unmarshal_role-string :
    (itoa : ℕ → Text) (r : Role) → check_role r ≡ none → unmarshal_role (role_string itoa r) ≡ ok r
unfolding check_role unmarshal_role role_string text_eq
unmarshal_role-string itoa zero h = absurd (ground arith)
unmarshal_role-string itoa (suc zero) h = refl
unmarshal_role-string itoa (suc (suc zero)) h = refl
unmarshal_role-string itoa (suc (suc (suc zero))) h = refl
unmarshal_role-string itoa (suc (suc (suc (suc n)))) h = absurd (ground arith)

unmarshal_role-valid : (t : Text) (r : Role) → unmarshal_role t ≡ ok r → check_role r ≡ none
unfolding check_role unmarshal_role
unmarshal_role-valid t r h = ground arith

-- A role is valid exactly where UnmarshalText reads it back from its printed name, however other
-- numbers are printed.
pub unmarshal_role_exact :
    (itoa : ℕ → Text) (r : Role)
    → (check_role r ≡ none) ↔ (unmarshal_role (role_string itoa r) ≡ ok r)
unmarshal_role_exact itoa r =
    (unmarshal_role-string itoa r, unmarshal_role-valid (role_string itoa r) r)

-- The mode parser never produces a value outside the enumeration.
pub parse_privacy_mode-le : (t : Text) → parse_privacy_mode t ≤ 3
unfolding parse_privacy_mode
parse_privacy_mode-le t = ground arith
