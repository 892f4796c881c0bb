-- ===== src/Routing/Domain.antt =====
-- `domain_matches` of src/client/geoip.rs.
use tls_tunnel.Prelude.{
  ◌-◌, ◌≡◌, ◌↔◌, ◌⊎◌, inl, inr, refl, ap, sym, ◌∙◌, Bool, true, false, ◌||◌, ◌&&◌, Option, none,
  some, [], ◌∷◌, ◌++◌, if◌then◌else◌, if_cases, length, take, drop, Str, codes, Bool-cases,
  strip_prefix, ends_with, ◌==◌, nat_eq, list_eq, list_beq_iff, arith, leb, length-append,
  drop-length-append, take-append-drop,
}

-- `&suffix[1..]`: `none` is the panic of a slice that does not start where a character does.
unfoldable pub cut_first : Str → Option Str
cut_first [] = none
cut_first (byte ∷ []) = some []
cut_first (byte ∷ next ∷ rest) = if leb 128 next && leb next 191 then none else some (next ∷ rest)

-- `none` is a panic, of a wildcard whose suffix starts with a character of several bytes. It ends the task.
unfoldable pub domain_match : Str → Str → Option Bool
unfolding cut_first
domain_match domain pattern = elim (strip_prefix (codes "*.") pattern) [
  | some suffix ↦
      if ends_with suffix domain
      then some true
      else elim (cut_first suffix) [ some rest ↦ some (domain == rest) | none ↦ none ]
  | none ↦ elim (strip_prefix (codes ".") pattern) [
    | some suffix ↦ some (ends_with pattern domain || domain == suffix)
    | none ↦ some (domain == pattern)
  ]
]

-- The test as the loops over the patterns use it, where it does not panic.
unfoldable pub domain_matches : Str → Str → Bool
unfolding domain_match
domain_matches domain pattern = elim (domain_match domain pattern) [ some b ↦ b | none ↦ false ]

or_left : (b c : Bool) → b ≡ true → (b || c) ≡ true
or_left true c h = refl
or_left false c h = absurd cc

or_right : (b c : Bool) → c ≡ true → (b || c) ≡ true
or_right true c h = refl
or_right false c h = h

or_second : (b c : Bool) → b ≡ false → (b || c) ≡ true → c ≡ true
or_second true c h k = absurd cc
or_second false c h k = k

and_both : (b c : Bool) → b ≡ true → c ≡ true → (b && c) ≡ true
and_both true c h k = k
and_both false c h k = absurd cc

abbrev pub IsSuffix : Str → Str → Type 0
IsSuffix suffix s = (front : Str) × (s ≡ front ++ suffix)

ends_with-IsSuffix : (suffix s : Str) → ends_with suffix s ≡ true → IsSuffix suffix s
ends_with-IsSuffix suffix s h =
    let step : (drop (length s - length suffix) s == suffix) ≡ true = ground (arith, h) in
    (
      take (length s - length suffix) s,
      sym (take-append-drop (length s - length suffix) s)
          ∙ ap (λ x. take (length s - length suffix) s ++ x) ((list_beq_iff _ _).0 step),
    )

ends_with-append : (front suffix : Str) → ends_with suffix (front ++ suffix) ≡ true
ends_with-append front suffix =
    let size = length-append front suffix in
    let cut : length (front ++ suffix) - length suffix ≡ length front = omega (arith, size) in
    let same = ap (λ n. drop n (front ++ suffix)) cut ∙ drop-length-append front suffix in
    and_both (leb (length suffix) (length (front ++ suffix))) _ (ground (arith, size)) (
      (list_beq_iff (drop (length (front ++ suffix) - length suffix) (front ++ suffix)) suffix).1
        same)

IsSuffix-ends_with : (suffix s : Str) → IsSuffix suffix s → ends_with suffix s ≡ true
IsSuffix-ends_with suffix s (front, e) = ap (ends_with suffix) e ∙ ends_with-append front suffix

-- A test for a suffix or one other text.
suffix_or :
    (suffix other s : Str)
    → ((ends_with suffix s || s == other) ≡ true) ↔ (IsSuffix suffix s ⊎ (s ≡ other))
suffix_or suffix other s = (to (Bool-cases (ends_with suffix s)), from)
  where
    to :
        (ends_with suffix s ≡ true) ⊎ (ends_with suffix s ≡ false)
        → (ends_with suffix s || s == other) ≡ true
        → IsSuffix suffix s ⊎ (s ≡ other)
    to (inl found) h = inl (ends_with-IsSuffix suffix s found)
    to (inr missing) h =
        inr ((list_beq_iff s other).0 (or_second (ends_with suffix s) (s == other) missing h))

    from : IsSuffix suffix s ⊎ (s ≡ other) → (ends_with suffix s || s == other) ≡ true
    from (inl found) = or_left (ends_with suffix s) (s == other) (IsSuffix-ends_with suffix s found)
    from (inr same) = or_right (ends_with suffix s) (s == other) ((list_beq_iff s other).1 same)

unwrap_true : {b : Bool} → some b ≡ some true → b ≡ true
unwrap_true e = cc

-- What a wildcard with this suffix answers for the domain.
abbrev Answers : Str → Str → Option Bool → Type 0
Answers domain suffix o =
    ((o ≡ some true) ↔ (IsSuffix suffix domain ⊎ (cut_first suffix ≡ some domain)))
    × ((o ≡ none) ↔ ((¬ IsSuffix suffix domain) × (cut_first suffix ≡ none)))

unwrap_same : {s t : Str} → some s ≡ some t → s ≡ t
unwrap_same e = cc

without_suffix :
    (domain suffix : Str) (cut : Option Str)
    → cut_first suffix ≡ cut
    → ¬ IsSuffix suffix domain
    → Answers domain suffix (elim cut [ some rest ↦ some (domain == rest) | none ↦ none ])
without_suffix domain suffix none e out = (
  (λ f. absurd (cc f), λ c. elim c [ inl found ↦ absurd (out found) | inr f ↦ cc (e, f) ]),
  (λ f. (out, e), λ f. refl),
)
without_suffix domain suffix (some rest) e out = (
  (
    λ f. inr (e ∙ sym (ap some ((list_beq_iff domain rest).0 (unwrap_true f)))),
    λ c. elim c [
      | inl found ↦ absurd (out found)
      | inr f ↦ ap some ((list_beq_iff domain rest).1 (unwrap_same (sym f ∙ e)))
    ],
  ),
  (λ f. absurd (cc f), λ f. absurd (cc (e, f.1))),
)

wildcard_iff :
    (domain suffix : Str) → Answers domain suffix (domain_match domain (codes "*." ++ suffix))
unfolding domain_match
wildcard_iff domain suffix =
    if_cases (Answers domain suffix) (ends_with suffix domain)
      (λ found.
        let is = ends_with-IsSuffix suffix domain found in
        ((λ e. inl is, λ e. refl), (λ e. absurd (cc e), λ e. absurd (e.0 is))))
      (λ missing.
        without_suffix domain suffix (cut_first suffix) refl
          (λ is. absurd (cc (missing, IsSuffix-ends_with suffix domain is))))

-- A pattern "*.suffix" matches exactly the domains that end with the suffix, and the suffix without its first byte
-- where that is a character; where it is only a part of one, the program panics on every other domain. A pattern
-- ".suffix" matches exactly the domains that end with the pattern, and the suffix itself. Any pattern that starts
-- in neither way matches exactly itself.
pub domain_match_iff :
    (domain suffix pattern : Str)
    → strip_prefix (codes "*.") pattern ≡ none
    → strip_prefix (codes ".") pattern ≡ none
    → ((domain_match domain (codes "*." ++ suffix) ≡ some true)
        ↔ (IsSuffix suffix domain ⊎ (cut_first suffix ≡ some domain)))
      × ((domain_match domain (codes "*." ++ suffix) ≡ none)
          ↔ ((¬ IsSuffix suffix domain) × (cut_first suffix ≡ none)))
      × ((domain_match domain (codes "." ++ suffix) ≡ some true)
          ↔ (IsSuffix (codes "." ++ suffix) domain ⊎ (domain ≡ suffix)))
      × ((domain_match domain pattern ≡ some true) ↔ (domain ≡ pattern))
unfolding domain_match
domain_match_iff domain suffix pattern star dot =
    let wild = wildcard_iff domain suffix in
    let dotted = suffix_or (codes "." ++ suffix) suffix domain in
    let same = list_beq_iff domain pattern in
    (
      wild.0,
      wild.1,
      (λ e. dotted.0 (unwrap_true e), λ e. ap some (dotted.1 e)),
      rw (star, dot, domain_match) (λ e. same.0 (unwrap_true e), λ e. ap some (same.1 e)),
    )

-- A wildcard asks for no dot: whatever stands in front of the suffix, the domain matches.
pub wildcard_matches_any :
    (front suffix : Str) → domain_match (front ++ suffix) (codes "*." ++ suffix) ≡ some true
wildcard_matches_any front suffix = (wildcard_iff (front ++ suffix) suffix).0.1 (inl (front, refl))
