-- ===== src/Auth/Laws.antt =====
-- Who gets in by src/auth.rs, and which tokens it reads from a header.
use Prim.Native.String.append
use Prim.Native.String.{len, ◌++◌}
use meta_agent_control_plane.Prelude.{
  ◌≡◌, ◌≢◌, ◌∙◌, ◌↔◌, ◌⊎◌, refl, ap, sym, String, false, ◌&&◌, not, Option, none, some,
  if◌then◌else◌, arith, inl, inr, true, nat_beq, Bool-cases, Option-cases, ℕ,
}
use package.text.Mathlib.TextEquality.{Char-path}
use Prim.Native.Char.{char, code}
use meta_agent_control_plane.Auth.{
  ascii_lower, ConstantTime, AuthPolicy, Authorized, granted, denied, compare_tokens, authorize,
  authorize_ingest, authorize_read, Header, missing, opaque_bytes, text, split_once,
  eq_ignore_ascii_case, is_ascii_whitespace, has_ascii_whitespace, is_empty, accept_token,
  bearer_token, preferred_token,
}

pub Authorized-cases : (a : Authorized) → (a ≡ granted) ⊎ (a ≡ denied)
Authorized-cases granted = inl refl
Authorized-cases denied = inr refl

module _ (constant_time : ConstantTime) where
  open constant_time use {ct_eq, ct_eq_iff}

  compare_tokens_iff : (a b : String) → (compare_tokens constant_time a b ≡ granted) ↔ (a ≡ b)
  unfolding compare_tokens
  compare_tokens_iff a b = (
    λ h. (ct_eq_iff a b).0 (ground arith),
    λ e. let same = (ct_eq_iff a b).1 e in let long = ap len e in ground arith,
  )

  authorize_iff :
      (token provided : Option String)
      → (authorize constant_time token provided ≡ granted)
        ↔ ((token ≡ none) ⊎ ((t : String) × (token ≡ some t) × (provided ≡ some t)))
  unfolding authorize
  authorize_iff none p = (λ h. inl refl, λ h. refl)
  authorize_iff (some a) none = (λ h. cc, λ h. ground arith)
  authorize_iff (some a) (some b) =
      let same = compare_tokens_iff a b in
      (λ h. inr (a, refl, ap some (sym (same.0 h))), λ h. same.1 (ground arith))

  -- Ingestion is granted exactly when no token is configured or the request carries the configured
  -- one; a read is granted exactly when reads are not protected or ingestion would be granted.
  pub granted_iff :
      (policy : AuthPolicy) (provided : Option String)
      → ((authorize_ingest constant_time policy provided ≡ granted) ↔ (
          (policy.token ≡ none) ⊎ ((t : String) × (policy.token ≡ some t) × (provided ≡ some t))))
        × ((authorize_read constant_time policy provided ≡ granted) ↔ (
            (policy.protect_reads ≡ false)
            ⊎ (authorize_ingest constant_time policy provided ≡ granted)))
  unfolding authorize_ingest authorize_read
  granted_iff policy provided =
      (authorize_iff policy.token provided, (λ h. ground arith, λ h. ground arith))

split_once_word :
    (word rest : String)
    → has_ascii_whitespace word ≡ false
    → split_once (word ++ " " ++ rest) ≡ some (word, rest)
unfolding split_once has_ascii_whitespace is_ascii_whitespace
split_once_word String.[] rest h = rw (append.nil, append.cons, append.nil) refl
split_once_word (String.◌∷◌ c w) rest h = rw append.cons (ground (arith, split_once_word w rest))

-- A header of a scheme word, one space and a token without white space gives that token when the
-- scheme is "bearer" in any case and the token is not empty, and no token otherwise.
pub bearer_token_parts :
    (scheme token : String)
    → has_ascii_whitespace scheme ≡ false
    → has_ascii_whitespace token ≡ false
    → bearer_token (text (scheme ++ " " ++ token))
      ≡ (if eq_ignore_ascii_case scheme "bearer" && not (is_empty token) then some token else none)
unfolding bearer_token accept_token
bearer_token_parts scheme token p q =
    rw (split_once_word scheme token p, bearer_token) (ground arith)

nat_beq_eq : (a b : ℕ) → nat_beq a b ≡ true → a ≡ b
nat_beq_eq a b h = ground arith

-- The first space parts the text.
split_once_parts :
    (value scheme token : String)
    → split_once value ≡ some (scheme, token)
    → value ≡ scheme ++ " " ++ token
unfolding split_once
split_once_parts String.[] scheme token h = cc
split_once_parts (String.◌∷◌ c s) scheme token h = elim (Bool-cases (nat_beq (code c) b' ')) [
  | inl space ↦
      let parts : some (String.[], s) ≡ some (scheme, token) = rw space at h in
      let empty : String.[] ≡ scheme = cc parts in
      let rest : s ≡ token = cc parts in
      let here : c ≡ char 32 tt = Char-path c (char 32 tt) (nat_beq_eq (code c) 32 space) in
      rw (sym empty, sym rest, append.nil, append.cons, append.nil) (ap (λ d. String.◌∷◌ d s) here)
  | inr other ↦ elim (Option-cases (split_once s)) [
    | inl nothing ↦ let bad = rw (nothing, split_once) at (rw other at h) in cc
    | inr ((before, after), found) ↦
        let parts : some (String.◌∷◌ c before, after) ≡ some (scheme, token) =
          rw found at (rw other at h) in
        let first : String.◌∷◌ c before ≡ scheme = cc parts in
        let rest : after ≡ token = cc parts in
        rw (sym first, sym rest, append.cons)
          (ap (String.◌∷◌ c) (split_once_parts s before after found))
  ]
]

-- A text that differs from one without white space in the case of letters only has none either.
same_letters_no_space :
    (s t : String)
    → eq_ignore_ascii_case s t ≡ true
    → has_ascii_whitespace t ≡ false
    → has_ascii_whitespace s ≡ false
unfolding eq_ignore_ascii_case has_ascii_whitespace is_ascii_whitespace ascii_lower
same_letters_no_space String.[] String.[] h plain = refl
same_letters_no_space String.[] (String.◌∷◌ d t) h plain = refl
same_letters_no_space (String.◌∷◌ c s) String.[] h plain = cc
same_letters_no_space (String.◌∷◌ c s) (String.◌∷◌ d t) h plain =
    ground (arith, same_letters_no_space s t)

-- The header is the scheme "bearer", in any case, one space and the token, which has a character and
-- no white space.
pub record IsBearer (token : String) (h : Header) : Type 0 where
  pub scheme : String
  pub written : h ≡ text (scheme ++ " " ++ token)
  pub bearer : eq_ignore_ascii_case scheme "bearer" ≡ true
  pub filled : is_empty token ≡ false
  pub plain : has_ascii_whitespace token ≡ false

accept_token-IsBearer :
    (value scheme token found : String)
    → value ≡ scheme ++ " " ++ found
    → accept_token (scheme, found) ≡ some token
    → IsBearer token (text value)
unfolding accept_token
accept_token-IsBearer value scheme token found written h =
    let same : found ≡ token = ground arith in
    record {
      scheme = scheme;
      written = ap text (written ∙ ap (λ (t : String). scheme ++ " " ++ t) same);
      bearer = ground arith;
      filled = ground arith;
      plain = ground arith;
    }

bearer_token-IsBearer :
    (value token : String) → bearer_token (text value) ≡ some token → IsBearer token (text value)
unfolding bearer_token
bearer_token-IsBearer value token h = elim (Option-cases (split_once value)) [
  | inl nothing ↦ let bad = rw (nothing, bearer_token) at h in cc
  | inr ((scheme, found), parts) ↦
      accept_token-IsBearer value scheme token found (split_once_parts value scheme found parts)
        (rw (parts, bearer_token) at h)
]

IsBearer-read : (token : String) (h : Header) → IsBearer token h → bearer_token h ≡ some token
IsBearer-read token h b = rw b.written (
    bearer_token_parts b.scheme token
      (same_letters_no_space b.scheme "bearer" b.bearer
        (unfold has_ascii_whitespace is_ascii_whitespace in refl))
      b.plain
    ∙ rw (b.bearer, b.filled) refl)

IsBearer-present : (token : String) (h : Header) → IsBearer token h → h ≢ missing
IsBearer-present token h b absent = let written = b.written in cc

-- A request has a token exactly in two cases: it has no authorization header and the token is that of
-- its query; or its header is the scheme "bearer", in any case, one space and the token, which has a
-- character and no white space. With a header, the query is not read.
pub preferred_token_iff :
    (h : Header) (query : Option String) (token : String)
    → (preferred_token h query ≡ some token)
      ↔ (((h ≡ missing) × (query ≡ some token)) ⊎ IsBearer token h)
unfolding preferred_token
preferred_token_iff missing query token = (
  λ e. inl (refl, e),
  λ o. elim o [ inl (_, e) ↦ e | inr b ↦ absurd (IsBearer-present token missing b refl) ],
)
preferred_token_iff opaque_bytes query token = (
  λ e. unfold bearer_token in cc,
  λ o. elim o [ inl (absent, _) ↦ cc | inr b ↦ IsBearer-read token opaque_bytes b ],
)
preferred_token_iff (text value) query token = (
  λ e. inr (bearer_token-IsBearer value token e),
  λ o. elim o [ inl (absent, _) ↦ cc | inr b ↦ IsBearer-read token (text value) b ],
)
