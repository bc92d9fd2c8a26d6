-- ===== src/Cache/Pattern.antt =====
-- `matchPattern` of backend/internal/cache/memory.go, and what it accepts.
use task_management_api.Shared.{
  ℕ, ◌-◌, Bytes, bytes, bytes_eq, bytes_eq_iff, Bool, true, false, ◌≡◌, ◌≢◌, refl, sym, ◌⊎◌, inl,
  inr, ◌↔◌, none, some, [], ◌∷◌, ◌++◌, ◌&&◌, ◌==◌, length, length-append, take, get_elem?, leb, ltb,
  if◌then◌else◌, arith, ap, Bool-cases, false_of_not, ==_iff, ◌∙◌,
}

-- `len(pattern) > 0 && pattern[len(pattern)-1] == '*'`
ends_with_star : Bytes → Bool
ends_with_star pattern =
    ltb 0 (length pattern)
    && elim (get_elem? pattern (length pattern - 1)) [ none ↦ false | some b ↦ b == b'*' ]

-- `len(text) >= len(prefix) && text[:len(prefix)] == prefix`
begins_with : (text prefix : Bytes) → Bool
unfolding bytes_eq
begins_with text prefix =
    leb (length prefix) (length text) && bytes_eq (take (length prefix) text) prefix

unfoldable pub match_pattern : (text pattern : Bytes) → Bool
unfolding ends_with_star begins_with bytes_eq
match_pattern text pattern =
    let prefix = take (length pattern - 1) pattern in
    if bytes_eq pattern (bytes "*")
    then true
    else if ends_with_star pattern
    then begins_with text prefix
    else bytes_eq text pattern

-- A pattern that ends in a star matches the texts that begin with what stands before the star;
-- any other matches itself alone.
abbrev pub Matches : Bytes → Bytes → Type 0
Matches text pattern =
    ((prefix : Bytes) × (rest : Bytes) × (pattern ≡ prefix ++ b'*' ∷ []) × (text ≡ prefix ++ rest))
    ⊎ (((prefix : Bytes) → pattern ≢ prefix ++ b'*' ∷ []) × (text ≡ pattern))

snoc_cases : (xs : Bytes) → (xs ≡ []) ⊎ ((ys : Bytes) × (b : ℕ) × (xs ≡ ys ++ b ∷ []))
snoc_cases [] = inl refl
snoc_cases (x ∷ xs) = elim (snoc_cases xs) [
  | inl e ↦ inr ([], x, ap (◌∷◌ x) e)
  | inr (ys, b, e) ↦ inr (x ∷ ys, b, ap (◌∷◌ x) e)
]

get_elem?-append : (xs : Bytes) (b : ℕ) → get_elem? (xs ++ b ∷ []) (length xs) ≡ some b
get_elem?-append [] b = refl
get_elem?-append (x ∷ xs) b = get_elem?-append xs b

take-append : (xs ys : Bytes) → take (length xs) (xs ++ ys) ≡ xs
take-append [] ys = refl
take-append (x ∷ xs) ys = ap (◌∷◌ x) (take-append xs ys)

length-snoc : (xs : Bytes) (b : ℕ) → length (xs ++ b ∷ []) - 1 ≡ length xs
length-snoc xs b = omega (arith, length-append xs (b ∷ []))

ends_with_star-snoc : (xs : Bytes) (b : ℕ) → ends_with_star (xs ++ b ∷ []) ≡ (b == b'*')
unfolding ends_with_star
ends_with_star-snoc xs b =
    rw (length-snoc xs b, get_elem?-append xs b) (ground (arith, length-append xs (b ∷ [])))

snoc-injective : (xs ys : Bytes) (a b : ℕ) → xs ++ a ∷ [] ≡ ys ++ b ∷ [] → (xs ≡ ys) × (a ≡ b)
snoc-injective [] [] a b e = ground arith
snoc-injective [] (y ∷ []) a b e = ground arith
snoc-injective [] (y ∷ y' ∷ ys) a b e = ground arith
snoc-injective (x ∷ []) [] a b e = ground arith
snoc-injective (x ∷ x' ∷ xs) [] a b e = ground arith
snoc-injective (x ∷ xs) (y ∷ ys) a b e = ground (arith, snoc-injective xs ys a b)

begins_with_iff :
    (prefix text : Bytes)
    → (begins_with text prefix ≡ true) ↔ ((rest : Bytes) × (text ≡ prefix ++ rest))
unfolding begins_with
begins_with_iff [] text = (λ _. (text, refl), λ _. ground arith)
begins_with_iff (p ∷ ps) [] = (λ h. absurd (ground arith), λ (rest, e). absurd (ground arith))
begins_with_iff (p ∷ ps) (t ∷ ts) = (
  λ h. let (rest, e) = (begins_with_iff ps ts).0 (ground arith) in (rest, ground arith),
  λ (rest, e). ground (arith, (begins_with_iff ps ts).1 (rest, ground arith)),
)

take-snoc : (ys : Bytes) (b : ℕ) → take (length (ys ++ b ∷ []) - 1) (ys ++ b ∷ []) ≡ ys
take-snoc ys b = rw (length-snoc ys b) (take-append ys (b ∷ []))

star_alone : (ys : Bytes) → bytes_eq (ys ++ b'*' ∷ []) (bytes "*") ≡ true → ys ≡ []
star_alone ys h = (snoc-injective ys [] b'*' b'*' ((bytes_eq_iff _ _).0 h)).0

match_pattern-star : (text ys : Bytes) → match_pattern text (ys ++ b'*' ∷ []) ≡ begins_with text ys
unfolding match_pattern
match_pattern-star text ys = elim (Bool-cases (bytes_eq (ys ++ b'*' ∷ []) (bytes "*"))) [
  | inl alone ↦ rw (alone, star_alone ys alone) (sym ((begins_with_iff [] text).1 (text, refl)))
  | inr longer ↦ rw (longer, ends_with_star-snoc ys b'*', take-snoc ys b'*')
]

not_snoc : (ys : Bytes) (b : ℕ) → ¬ ([] ≡ ys ++ b ∷ [])
not_snoc [] b e = cc
not_snoc (y ∷ ys) b e = cc

plain_end : (ys zs : Bytes) (b : ℕ) → (b == b'*') ≡ false → ys ++ b ∷ [] ≡ zs ++ b'*' ∷ [] → ⊥
plain_end ys zs b h e = ground (arith, snoc-injective ys zs b b'*' e)

star_or_plain :
    (pattern : Bytes)
    → ((ys : Bytes) × (pattern ≡ ys ++ b'*' ∷ []))
      ⊎ ((prefix : Bytes) → pattern ≢ prefix ++ b'*' ∷ [])
star_or_plain pattern = elim (snoc_cases pattern) [
  | inl e ↦ inr (λ ys h. not_snoc ys _ (sym e ∙ h))
  | inr (ys, b, e) ↦ elim (Bool-cases (b == b'*')) [
    | inl h ↦ inl (ys, rw (e, (==_iff b b'*').0 h) refl)
    | inr h ↦ inr (λ zs k. absurd (plain_end ys zs b h (sym e ∙ k)))
  ]
]

ends_with_star-plain :
    (pattern : Bytes)
    → ((prefix : Bytes) → pattern ≢ prefix ++ b'*' ∷ [])
    → ends_with_star pattern ≡ false
ends_with_star-plain pattern plain = elim (snoc_cases pattern) [
  | inl e ↦ rw e (unfold ends_with_star in refl)
  | inr (ys, b, e) ↦
      rw (e, ends_with_star-snoc ys b)
        (false_of_not _ (λ h. plain ys (rw (e, (==_iff b b'*').0 h) refl)))
]

match_pattern-plain :
    (text pattern : Bytes)
    → ((prefix : Bytes) → pattern ≢ prefix ++ b'*' ∷ [])
    → match_pattern text pattern ≡ bytes_eq text pattern
unfolding match_pattern
match_pattern-plain text pattern plain = rw (
  false_of_not _ (λ h. plain [] ((bytes_eq_iff pattern (bytes "*")).0 h)),
  ends_with_star-plain pattern plain,
)

match_pattern-Matches :
    (text pattern : Bytes) → match_pattern text pattern ≡ true → Matches text pattern
match_pattern-Matches text pattern h = elim (star_or_plain pattern) [
  | inl (ys, e) ↦
      let (rest, t) = (begins_with_iff ys text).0 (sym (match_pattern-star text ys) ∙ rw e at h) in
      inl (ys, rest, e, t)
  | inr plain ↦
      inr (plain, (bytes_eq_iff text pattern).0 (sym (match_pattern-plain text pattern plain) ∙ h))
]

Matches-match_pattern :
    (text pattern : Bytes) → Matches text pattern → match_pattern text pattern ≡ true
Matches-match_pattern text pattern (inl (ys, rest, e, t)) =
    rw (e, match_pattern-star text ys) ((begins_with_iff ys text).1 (rest, t))
Matches-match_pattern text pattern (inr (plain, t)) =
    rw (match_pattern-plain text pattern plain) ((bytes_eq_iff text pattern).1 t)

-- `matchPattern` decides `Matches`: a pattern that ends in a star accepts exactly the texts that
-- begin with what stands before its last star, and any other pattern exactly itself.
pub match_pattern_iff :
    (text pattern : Bytes) → (match_pattern text pattern ≡ true) ↔ Matches text pattern
match_pattern_iff text pattern =
    (match_pattern-Matches text pattern, Matches-match_pattern text pattern)

pub match_pattern-prefix :
    (prefix rest : Bytes) → match_pattern (prefix ++ rest) (prefix ++ b'*' ∷ []) ≡ true
match_pattern-prefix prefix rest =
    Matches-match_pattern (prefix ++ rest) (prefix ++ b'*' ∷ []) (inl (prefix, rest, refl, refl))

pub match_pattern-no_prefix :
    (text prefix : Bytes)
    → ((rest : Bytes) → text ≢ prefix ++ rest)
    → match_pattern text (prefix ++ b'*' ∷ []) ≡ false
match_pattern-no_prefix text prefix apart = false_of_not _ (λ h.
    elim (match_pattern-Matches text (prefix ++ b'*' ∷ []) h) [
      | inl (ys, rest, e, t) ↦
          apart rest (t ∙ ap (λ zs. zs ++ rest) (sym (snoc-injective prefix ys b'*' b'*' e).0))
      | inr (plain, t) ↦ plain prefix refl
    ])
