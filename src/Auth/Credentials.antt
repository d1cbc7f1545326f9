-- ===== src/Auth/Credentials.antt =====
-- The Authorization header of src/auth.rs: the headers that carry credentials, and those at which
-- the guard panics.
use Prim.Native.Char.{Char, code, len_utf8}
use Prim.Native.String.{String, [], ◌∷◌}
use albion_rest_api.Base.{
  ℕ, ◌+◌, ◌-◌, ◌≤◌, ◌≡◌, ◌≢◌, ◌↔◌, ◌<◌, refl, sym, Bool-cases, ltb, ◌==◌, true, none, some, List,
  arith, inl, inr, le→ltb, Option-cases,
}
use text.Mathlib.TextLemmas.{nil-append, cons-append}
use text.Mathlib.TextPositions.{len_utf8-pos}
use albion_rest_api.Text.{
  Lacks, split_once-append, ◌+++◌, byte_len, split_at_byte, eq_ignore_ascii_case,
}
use albion_rest_api.Auth.{Codecs, success, panicked, credentials_of, basic_prefix}

byte_len-append : (s t : String) → byte_len (s +++ t) ≡ byte_len s + byte_len t
unfolding byte_len
byte_len-append [] t = rw nil-append (omega arith)
byte_len-append (d ∷ s) t = rw cons-append (omega (arith, byte_len-append s t))

-- A character of the text reaches over this byte.
abbrev pub CutsChar : String → ℕ → Type 0
CutsChar s n =
    (before : String) × (d : Char) × (after : String) × (s ≡ before +++ (d ∷ after))
    × (byte_len before < n)
    × (n < byte_len before + len_utf8 d)

split_at_byte-CutsChar :
    (s : String) (n : ℕ) → n ≤ byte_len s → split_at_byte s n ≡ none → CutsChar s n
unfolding split_at_byte byte_len
split_at_byte-CutsChar [] n le e = absurd (ground (arith, e, le))
split_at_byte-CutsChar (d ∷ s) n le e = elim (Bool-cases (n == 0)) [
  | inl zero ↦ absurd (ground (arith, zero, e))
  | inr more ↦ elim (Bool-cases (ltb n (len_utf8 d))) [
    | inl within ↦
        ([], d, s, sym (nil-append (d ∷ s)), ground (arith, more), ground (arith, within))
    | inr beyond ↦
        let (before, c, after, is, low, high) =
          split_at_byte-CutsChar s (n - len_utf8 d) (ground (arith, beyond, le))
            (ground (arith, more, beyond, e)) in
        (
          d ∷ before,
          c,
          after,
          rw is (sym (cons-append d before (c ∷ after))),
          ground (arith, beyond, low),
          ground (arith, beyond, high),
        )
  ]
]

split_at_byte_inside :
    (before : String) (d : Char) (after : String) (n : ℕ)
    → byte_len before < n
    → n < byte_len before + len_utf8 d
    → split_at_byte (before +++ (d ∷ after)) n ≡ none
unfolding split_at_byte byte_len
split_at_byte_inside [] d after n low high = rw nil-append (ground (arith, low, high))
split_at_byte_inside (c ∷ before) d after n low high = rw cons-append (
    ground (
      arith,
      low,
      high,
      split_at_byte_inside before d after (n - len_utf8 c) (ground (arith, low))
          (ground (arith, low, high)),
    ))

-- The guard panics on a header exactly when a character reaches over its sixth byte: it begins
-- before the end of the first six bytes, and ends after it.
pub credentials_of-panicked_iff :
    (c : Codecs) (header : String) → (credentials_of c (some header) ≡ panicked) ↔ CutsChar header 6
unfolding credentials_of byte_len
credentials_of-panicked_iff c header = (λ e. sliced e, λ h. panics h)
  where
    sliced : credentials_of c (some header) ≡ panicked → CutsChar header 6
    sliced e = elim (Option-cases (split_at_byte header 6)) [
      | inl s ↦ split_at_byte-CutsChar header 6 (ground arith) s
      | inr (p, s) ↦ absurd (ground arith)
    ]

    panics : CutsChar header 6 → credentials_of c (some header) ≡ panicked
    panics (before, d, after, is, low, high) =
        let s : split_at_byte header 6 ≡ none =
          rw is (split_at_byte_inside before d after 6 low high) in
        let long : 6 ≤ byte_len header =
          rw (is, byte_len-append before (d ∷ after)) (ground (arith, high)) in
        rw (s, le→ltb (byte_len header) 6 long) refl

-- Every character takes one byte.
abbrev pub IsAscii : String → Type 0
IsAscii [] = Unit {0}
IsAscii (d ∷ s) = (len_utf8 d ≡ 1) × IsAscii s

IsAscii-append :
    (before : String) (d : Char) (after : String)
    → IsAscii (before +++ (d ∷ after))
    → len_utf8 d ≡ 1
IsAscii-append [] d after h = (rw nil-append at h).0
IsAscii-append (c ∷ before) d after h = IsAscii-append before d after (rw cons-append at h).1

-- On a header of ASCII characters the guard never panics.
pub credentials_of-ne-panicked :
    (c : Codecs) (header : String) → IsAscii header → credentials_of c (some header) ≢ panicked
credentials_of-ne-panicked c header h e =
    let (before, d, after, is, low, high) = (credentials_of-panicked_iff c header).0 e in
    let narrow = IsAscii-append before d after (rw is at h) in
    absurd (ground (arith, narrow, low, high))

split_at_byte-append : (s t : String) → split_at_byte (s +++ t) (byte_len s) ≡ some (s, t)
unfolding split_at_byte byte_len
split_at_byte-append [] [] = refl
split_at_byte-append [] (d ∷ t) = rw nil-append refl
split_at_byte-append (d ∷ s) t =
    let (k, wide) = len_utf8-pos d in
    let rest : len_utf8 d + byte_len s - len_utf8 d ≡ byte_len s = omega arith in
    rw cons-append (ground (arith, wide, rest, split_at_byte-append s t))

-- The scheme in any case, the space and base64 of `name:secret` give these credentials, if the name
-- has no colon; the secret may have some.
pub credentials_of_basic :
    (c : Codecs) (scheme encoded name secret : String) (colon : Char) (bytes : List ℕ)
    → byte_len scheme ≡ byte_len basic_prefix
    → eq_ignore_ascii_case scheme basic_prefix ≡ true
    → c.base64_decode encoded ≡ some bytes
    → c.from_utf8 bytes ≡ some (name +++ (colon ∷ secret))
    → code colon ≡ b':'
    → Lacks (code colon) name
    → credentials_of c (some (scheme +++ encoded)) ≡ success (name, secret)
unfolding credentials_of
credentials_of_basic c scheme encoded name secret colon bytes long scheme_eq dec utf is_colon
      lacks =
    ground (
      arith,
      byte_len-append scheme encoded,
      split_at_byte-append scheme encoded,
      split_once-append colon name secret lacks,
    )
