-- ===== src/Validation/Labels.antt =====
-- controllers/validation.go and router_id_resolution.go: the sanitizers of metric values, label values
-- and log messages. Texts are their bytes.
use k8gobgp.Prelude.{
  ℕ, zero, suc, ◌+◌, ◌≤◌, ◌≡◌, refl, Bool, false, List, [], ◌∷◌, ◌++◌, length, arith, ltb, ◌==◌,
  nat_eq, if◌then◌else◌, ◌||◌, Bool-cases, inl, inr,
}

unfoldable pub validate_metric_value : ℕ → ℕ
validate_metric_value value = if ltb 1000000000 value then 1000000000 else value

-- strings.ReplaceAll of one byte by one byte, and by nothing.
replace_all : ℕ → ℕ → List ℕ → List ℕ
replace_all old new [] = []
replace_all old new (b ∷ s) = (if b == old then new else b) ∷ replace_all old new s

remove_all : ℕ → List ℕ → List ℕ
remove_all old [] = []
remove_all old (b ∷ s) = let rest = remove_all old s in if b == old then rest else b ∷ rest

-- s[:n], for an n of at most len(s).
take : ℕ → List ℕ → List ℕ
take zero s = []
take (suc n) [] = []
take (suc n) (b ∷ s) = b ∷ take n s

abbrev max_label_length : ℕ
max_label_length = 128

clean_label : List ℕ → List ℕ
unfolding replace_all
clean_label s = replace_all 92 95 (replace_all 34 95 (replace_all 13 95 (replace_all 10 95 s)))

cut : ℕ → List ℕ → List ℕ
unfolding take
cut most s = if ltb most (length s) then take most s else s

unfoldable pub sanitize_label_value : List ℕ → List ℕ
unfolding clean_label cut
sanitize_label_value value = cut max_label_length (clean_label value)

clean_message : List ℕ → List ℕ
unfolding replace_all remove_all
clean_message s = remove_all 0 (replace_all 13 32 (replace_all 10 32 s))

-- `"..."`
abbrev dots : List ℕ
dots = 46 ∷ 46 ∷ 46 ∷ []

abbrev max_message_length : ℕ
max_message_length = 500

cut_with_dots : ℕ → List ℕ → List ℕ
unfolding take
cut_with_dots most s = if ltb most (length s) then take most s ++ dots else s

unfoldable pub sanitize_log_message : List ℕ → List ℕ
unfolding clean_message cut_with_dots
sanitize_log_message s = cut_with_dots max_message_length (clean_message s)

-- Does the byte occur?
unfoldable pub occurs : ℕ → List ℕ → Bool
occurs b [] = false
occurs b (c ∷ s) = c == b || occurs b s

length-take : (n : ℕ) (s : List ℕ) → length (take n s) ≤ n
unfolding take
length-take zero s = ground arith
length-take (suc n) [] = ground arith
length-take (suc n) (b ∷ s) = ground (arith, length-take n s)

length-append : (s t : List ℕ) → length (s ++ t) ≡ length s + length t
length-append [] t = omega arith
length-append (b ∷ s) t = ground (arith, length-append s t)

occurs-take : (b n : ℕ) (s : List ℕ) → occurs b s ≡ false → occurs b (take n s) ≡ false
unfolding take occurs
occurs-take b zero s h = refl
occurs-take b (suc n) [] h = refl
occurs-take b (suc n) (c ∷ s) h = ground (arith, occurs-take b n s)

occurs-replaced :
    (old new : ℕ) (s : List ℕ) → (new == old) ≡ false → occurs old (replace_all old new s) ≡ false
unfolding replace_all occurs
occurs-replaced old new [] h = refl
occurs-replaced old new (c ∷ s) h = ground (arith, occurs-replaced old new s h)

occurs-replace_all :
    (b old new : ℕ) (s : List ℕ)
    → (new == b) ≡ false
    → occurs b s ≡ false
    → occurs b (replace_all old new s) ≡ false
unfolding replace_all occurs
occurs-replace_all b old new [] h k = refl
occurs-replace_all b old new (c ∷ s) h k = ground (arith, occurs-replace_all b old new s h)

occurs-removed : (old : ℕ) (s : List ℕ) → occurs old (remove_all old s) ≡ false
unfolding remove_all occurs
occurs-removed old [] = refl
occurs-removed old (c ∷ s) = ground (arith, occurs-removed old s)

occurs-remove_all :
    (b old : ℕ) (s : List ℕ) → occurs b s ≡ false → occurs b (remove_all old s) ≡ false
unfolding remove_all occurs
occurs-remove_all b old [] h = refl
occurs-remove_all b old (c ∷ s) h = ground (arith, occurs-remove_all b old s)

-- Absent bytes are not replaced.
replace_all_absent : (old new : ℕ) (s : List ℕ) → occurs old s ≡ false → replace_all old new s ≡ s
unfolding replace_all occurs
replace_all_absent old new [] h = refl
replace_all_absent old new (c ∷ s) h = ground (arith, replace_all_absent old new s)

-- No newline, carriage return, quote or backslash.
pub record IsCleanLabel (s : List ℕ) : Type 0 where
  pub newline : occurs 10 s ≡ false
  pub carriage_return : occurs 13 s ≡ false
  pub quote : occurs 34 s ≡ false
  pub backslash : occurs 92 s ≡ false

clean_label-IsCleanLabel : (s : List ℕ) → IsCleanLabel (clean_label s)
unfolding clean_label
clean_label-IsCleanLabel s =
    let t = replace_all 10 95 s in
    let u = replace_all 13 95 t in
    let v = replace_all 34 95 u in
    record {
      newline = occurs-replace_all 10 92 95 v refl (
          occurs-replace_all 10 34 95 u refl
            (occurs-replace_all 10 13 95 t refl (occurs-replaced 10 95 s refl)));
      carriage_return =
          occurs-replace_all 13 92 95 v refl
            (occurs-replace_all 13 34 95 u refl (occurs-replaced 13 95 t refl));
      quote = occurs-replace_all 34 92 95 v refl (occurs-replaced 34 95 u refl);
      backslash = occurs-replaced 92 95 v refl;
    }

occurs-cut : (b n : ℕ) (s : List ℕ) → occurs b s ≡ false → occurs b (cut n s) ≡ false
unfolding cut
occurs-cut b n s h = ground (arith, h, occurs-take b n s)

length-cut : (n : ℕ) (s : List ℕ) → length (cut n s) ≤ n
unfolding cut
length-cut n s = ground (arith, length-take n s)

cut_short : (n : ℕ) (s : List ℕ) → length s ≤ n → cut n s ≡ s
unfolding cut
cut_short n s h = ground arith

cut-IsCleanLabel : (n : ℕ) (s : List ℕ) → IsCleanLabel s → IsCleanLabel (cut n s)
cut-IsCleanLabel n s h = record {
  newline = occurs-cut 10 n s h.newline;
  carriage_return = occurs-cut 13 n s h.carriage_return;
  quote = occurs-cut 34 n s h.quote;
  backslash = occurs-cut 92 n s h.backslash;
}

clean_label_lem : (s : List ℕ) → IsCleanLabel s → clean_label s ≡ s
unfolding clean_label
clean_label_lem s clean =
    rw
      (
        replace_all_absent 10 95 s clean.newline,
        replace_all_absent 13 95 s clean.carriage_return,
        replace_all_absent 34 95 s clean.quote,
      )
      (replace_all_absent 92 95 s clean.backslash)

-- A sanitized label value has at most 128 bytes and no newline, carriage return, quote or backslash,
-- and a value of that kind is kept as it is.
pub sanitize_label_value-IsCleanLabel :
    (s : List ℕ)
    → IsCleanLabel (sanitize_label_value s)
      × (length (sanitize_label_value s) ≤ 128)
      × (IsCleanLabel s → length s ≤ 128 → sanitize_label_value s ≡ s)
unfolding sanitize_label_value
sanitize_label_value-IsCleanLabel s = (
  cut-IsCleanLabel max_label_length (clean_label s) (clean_label-IsCleanLabel s),
  length-cut max_label_length (clean_label s),
  λ clean short. rw (clean_label_lem s clean) (cut_short max_label_length s short),
)

occurs-append :
    (b : ℕ) (s t : List ℕ) → occurs b s ≡ false → occurs b t ≡ false → occurs b (s ++ t) ≡ false
unfolding occurs
occurs-append b [] t h k = k
occurs-append b (c ∷ s) t h k = ground (arith, occurs-append b s t)

occurs-cut_with_dots :
    (b n : ℕ) (s : List ℕ)
    → occurs b dots ≡ false
    → occurs b s ≡ false
    → occurs b (cut_with_dots n s) ≡ false
unfolding cut_with_dots
occurs-cut_with_dots b n s h k = elim (Bool-cases (ltb n (length s))) [
  | inl long ↦ rw long (occurs-append b (take n s) dots (occurs-take b n s k) h)
  | inr short ↦ rw short k
]

length-cut_with_dots : (n : ℕ) (s : List ℕ) → length (cut_with_dots n s) ≤ n + 3
unfolding cut_with_dots
length-cut_with_dots n s = elim (Bool-cases (ltb n (length s))) [
  | inl long ↦ rw (long, length-append (take n s) dots) (omega (arith, length-take n s))
  | inr short ↦ rw short (ground arith)
]

-- No newline, carriage return or NUL: nothing that starts a line of its own in a log.
pub record IsOneLine (s : List ℕ) : Type 0 where
  pub newline : occurs 10 s ≡ false
  pub carriage_return : occurs 13 s ≡ false
  pub nul : occurs 0 s ≡ false

-- A sanitized log message is one line of at most 503 bytes: the 500 that are kept and the dots.
pub sanitize_log_message-IsOneLine :
    (s : List ℕ) → IsOneLine (sanitize_log_message s) × (length (sanitize_log_message s) ≤ 503)
unfolding sanitize_log_message clean_message occurs
sanitize_log_message-IsOneLine s =
    let t = replace_all 10 32 s in
    let u = replace_all 13 32 t in
    let clean = clean_message s in
    let newline =
      occurs-remove_all 10 0 u
        (occurs-replace_all 10 13 32 t refl (occurs-replaced 10 32 s refl)) in
    (
      record {
        newline = occurs-cut_with_dots 10 max_message_length clean refl newline;
        carriage_return =
            occurs-cut_with_dots 13 max_message_length clean refl
              (occurs-remove_all 13 0 u (occurs-replaced 13 32 t refl));
        nul = occurs-cut_with_dots 0 max_message_length clean refl (occurs-removed 0 u);
      },
      length-cut_with_dots max_message_length clean,
    )
