-- ===== src/Config/File/Lines.antt =====
-- A line that `save_config` of src/config.c has printed, and the loop of `load_config`.
use cileserver.Base.CString.{Bytes, NoByte, cstr, cstr_self, skip}
use cileserver.Base.Decimal.{print_int, print_int-NoByte, print_int_filled}
use cileserver.Base.Text.{
  newline, fgets, break_at, NoByte-append, break_at-append, fgets-append, strtok-append,
  strtok-whole,
}
use cileserver.Base.{
  ℕ, suc, ◌+◌, ◌<◌, ◌≡◌, ◌≢◌, refl, sym, ap, ◌∙◌, ◌||◌, false, inl, inr, [], ◌∷◌, ◌++◌, arith, ◌==◌,
  length, get_or, length-append, append_assoc,
}
use cileserver.Config.File.{
  ConfigState, set_config_value, set_from_line, config_line, load_lines, print_entry,
}

-- A text that can stand on either side of the `=`.
pub record IsSide (s : Bytes) : Type 0 where
  pub filled : 0 < length s
  pub no_equals : NoByte b'=' s
  pub no_newline : NoByte newline s
  pub no_nul : NoByte 0 s
  pub no_space : get_or s 0 0 ≢ b' '

pub skip_none : (s : Bytes) → get_or s 0 0 ≢ b' ' → skip b' ' s ≡ s
unfolding skip
skip_none [] h = refl
skip_none (x ∷ s) h = ground arith

pub int-IsSide : (w : ℕ) → IsSide (print_int w)
int-IsSide w = record {
  filled = print_int_filled w;
  no_equals = print_int-NoByte b'=' w (inr (omega arith)) (λ e. omega arith);
  no_newline = print_int-NoByte newline w (inl (omega arith)) (λ e. omega arith);
  no_nul = print_int-NoByte 0 w (inl (omega arith)) (λ e. omega arith);
  no_space = first _ (print_int-NoByte b' ' w (inl (omega arith)) (λ e. omega arith));
}
  where
    first : (s : Bytes) → NoByte b' ' s → get_or s 0 0 ≢ b' '
    first [] h e = omega arith
    first (x ∷ s) h e = h.0 e

module _ (k : ℕ) (ks value : Bytes) (n : IsSide (k ∷ ks)) (v : IsSide value) where
  -- A line, without its newline.
  unfoldable assignment : Bytes
  assignment = (k ∷ ks) ++ b'=' ∷ value

  set_from_line-assignment :
      (s : ConfigState) → set_from_line assignment s ≡ (set_config_value s (k ∷ ks) value).1
  unfolding set_from_line assignment
  set_from_line-assignment s =
      rw (strtok-append b'=' (k ∷ ks) value n.filled n.no_equals, set_from_line)
        (rw (strtok-whole b'=' value v.filled v.no_equals)
          (rw (skip_none (k ∷ ks) n.no_space) (rw (skip_none value v.no_space) refl)))

  assignment-NoByte : (c : ℕ) → c ≢ b'=' → NoByte c (k ∷ ks) → NoByte c value → NoByte c assignment
  unfolding assignment
  assignment-NoByte c ne h l = NoByte-append c (k ∷ ks) _ h ((λ e. ne (sym e)), l)

  config_line-assignment :
      (s : ConfigState)
      → k ≢ b'#'
      → config_line k (ks ++ b'=' ∷ (value ++ newline ∷ [])) s
        ≡ (set_config_value s (k ∷ ks) value).1
  unfolding config_line assignment
  config_line-assignment s no_comment =
      let plain : (k == b'#' || k == newline) ≡ false = ground (arith, n.no_newline.0) in
      let line : k ∷ (ks ++ b'=' ∷ (value ++ newline ∷ [])) ≡ assignment ++ newline ∷ [] =
        sym (append_assoc (k ∷ ks) (b'=' ∷ value) (newline ∷ [])) in
      let nul =
        NoByte-append 0 assignment (newline ∷ [])
          (assignment-NoByte 0 (λ e. omega arith) n.no_nul v.no_nul) ((λ e. omega arith), tt) in
      rw (plain, config_line)
        (ap (λ x. set_from_line (break_at newline (cstr x)).0 s) line
          ∙ ap (λ x. set_from_line (break_at newline x).0 s) (cstr_self _ nul)
          ∙ ap (λ x. set_from_line x.0 s)
              (break_at-append newline assignment []
                (assignment-NoByte newline (λ e. omega arith) n.no_newline v.no_newline))
          ∙ set_from_line-assignment s)

  -- One round of the loop of `load_config` on a line of `save_config`.
  pub load_lines-print_entry :
      (f : ℕ) (rest : Bytes) (s : ConfigState)
      → k ≢ b'#'
      → length (k ∷ ks) + length value < 1022
      → load_lines (suc f) (print_entry (k ∷ ks) value ++ rest) s
        ≡ load_lines f rest (set_config_value s (k ∷ ks) value).1
  unfolding load_lines print_entry assignment fgets config_line set_config_value
  load_lines-print_entry f rest s no_comment short =
      let file : print_entry (k ∷ ks) value ++ rest ≡ assignment ++ newline ∷ rest =
        simp append_assoc in
      let line : fgets 1023 (print_entry (k ∷ ks) value ++ rest)
          ≡ (assignment ++ newline ∷ [], rest) =
        ap (fgets 1023) file
        ∙ fgets-append 1023 assignment rest
            (assignment-NoByte newline (λ e. omega arith) n.no_newline v.no_newline)
            (omega (arith, length-append (k ∷ ks) (b'=' ∷ value))) in
      let whole : assignment ++ newline ∷ [] ≡ k ∷ (ks ++ b'=' ∷ (value ++ newline ∷ [])) =
        append_assoc (k ∷ ks) (b'=' ∷ value) (newline ∷ []) in
      rw (line, load_lines)
        (rw whole (rw line (ap (load_lines f rest) (config_line-assignment s no_comment))))
