-- ===== src/Config/File/Spaced.antt =====
-- Lines of the configuration file with spaces around the `=`.
use cileserver.Config.File.Lines.{skip_none}
use cileserver.Base.CString.{Bytes, NoByte, codes, skip, str_eq, lacks}
use cileserver.Base.Text.{strtok, NoByte-append, strtok-append}
use cileserver.Base.{
  ℕ, ◌≡◌, ◌≢◌, refl, sym, ap, ◌∙◌, true, false, inl, inr, [], ◌∷◌, ◌++◌, some, failure,
  Option-cases, arith, append_assoc,
}
use cileserver.Config.File.{ConfigState, set_config_value, set_from_line}

-- A text that ends in a space is no text without one.
str_eq_spaced : (s t : Bytes) → lacks b' ' t ≡ true → str_eq (s ++ b' ' ∷ []) t ≡ false
unfolding str_eq
str_eq_spaced [] [] h = refl
str_eq_spaced [] (y ∷ t) h = ground arith
str_eq_spaced (x ∷ s) [] h = refl
str_eq_spaced (x ∷ s) (y ∷ t) h = ground (arith, str_eq_spaced s t)

set_config_value_spaced :
    (s : ConfigState) (key value : Bytes)
    → set_config_value s (key ++ b' ' ∷ []) value ≡ (failure, s)
unfolding set_config_value
set_config_value_spaced s key value =
    rw (str_eq_spaced key (codes "root_directory") refl, set_config_value)
      (rw (str_eq_spaced key (codes "max_connections") refl) (
        rw (str_eq_spaced key (codes "port") refl) (
          rw (str_eq_spaced key (codes "log_level") refl) (
            rw (str_eq_spaced key (codes "enable_auth") refl)
              (rw (str_eq_spaced key (codes "auth_file") refl) refl)))))

-- A line with a space between the name and the `=` sets nothing, whatever the name is, if it does
-- not begin with a space, and whatever the value is.
pub set_from_line_spaced :
    (k : ℕ) (ks value : Bytes) (s : ConfigState)
    → NoByte b'=' (k ∷ ks)
    → k ≢ b' '
    → set_from_line ((k ∷ ks) ++ b' ' ∷ b'=' ∷ value) s ≡ s
unfolding set_from_line
set_from_line_spaced k ks value s no_equals no_space =
    let key : Bytes = (k ∷ ks) ++ b' ' ∷ [] in
    let line : (k ∷ ks) ++ b' ' ∷ b'=' ∷ value ≡ key ++ b'=' ∷ value =
      sym (append_assoc (k ∷ ks) (b' ' ∷ []) (b'=' ∷ value)) in
    let first : strtok b'=' ((k ∷ ks) ++ b' ' ∷ b'=' ∷ value) ≡ some (key, value) =
      ap (strtok b'=') line
      ∙ strtok-append b'=' key value (omega arith)
          (NoByte-append b'=' (k ∷ ks) (b' ' ∷ []) no_equals ((λ e. omega arith), tt)) in
    let trimmed : skip b' ' key ≡ key = skip_none key no_space in
    rw (first, set_from_line)
      (elim (Option-cases (strtok b'=' value)) [
        | inl no_value ↦ rw no_value refl
        | inr ((v, rest), has_value) ↦
            rw has_value
              (rw trimmed (ap (λ r. r.1) (set_config_value_spaced s (k ∷ ks) (skip b' ' v))))
      ])
