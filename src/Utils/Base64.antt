-- ===== src/Utils/Base64.antt =====
-- `to_b64_url` of src/tm_utils.c: base64 text in the URL-safe alphabet of a JWT, in place.
use tracemate.Base.{
  ℕ, suc, zero, ◌+◌, ◌-◌, ◌≤◌, [], ◌∷◌, ◌++◌, ◌≡◌, ◌≢◌, sym, ap, ◌∙◌, arith, ltb, append-nil,
  length-append, ◌==◌, if◌then◌else◌, Bytes, All, length, length-map, map, take,
}
use tracemate.CString.{until_nul}
use tracemate.CString.Tokens.{until_nul_lem, until_nul-append}

-- What the body of the loop writes over one byte.
url_byte : ℕ → ℕ
url_byte c = if c == b'+' then b'-' else if c == b'/' then b'_' else if c == b'=' then 0 else c

-- The loop from index `i`, over the bytes from there on; `new_len` falls at each '='.
b64_loop : ℕ → ℕ → Bytes → Bytes × ℕ
unfolding url_byte
b64_loop i new_len [] = ([], new_len)
b64_loop i new_len (c ∷ s) =
    let (rest, n) = b64_loop (i + 1) (if c == b'=' then new_len - 1 else new_len) s in
    if ltb i new_len then (url_byte c ∷ rest, n) else (c ∷ s, new_len)

-- The buffer afterwards, and the length returned.
unfoldable pub to_b64_url : Bytes → ℕ → Bytes × ℕ
unfolding b64_loop
to_b64_url b64 len = b64_loop 0 len b64

-- What printf("%.*s", len, b64) writes: at most `len` bytes, up to a NUL.
abbrev pub printed : Bytes × ℕ → Bytes
printed (b64, len) = until_nul (take len b64)

abbrev pub url_char : ℕ → ℕ
url_char c = if c == b'+' then b'-' else if c == b'/' then b'_' else c

-- A byte of base64 text other than the padding.
abbrev pub IsBody : ℕ → Type 0
IsBody c = (c ≢ b'=') × (c ≢ 0)

url_byte-body : (c : ℕ) → IsBody c → url_byte c ≡ url_char c
unfolding url_byte
url_byte-body c h = ground arith

-- Over the body the loop only translates; it goes on behind it with the same length.
b64_loop-body :
    (i j n : ℕ) (body rest : Bytes)
    → All IsBody body
    → i + length body ≡ j
    → j ≤ n
    → b64_loop i n (body ++ rest)
      ≡ (map url_char body ++ (b64_loop j n rest).0, (b64_loop j n rest).1)
unfolding b64_loop
b64_loop-body i j n [] rest h e k = let z : i ≡ j = omega arith in rw z
b64_loop-body i j n (c ∷ body) rest h e k =
    ground (arith, b64_loop-body (i + 1) j n body rest h.1 (omega arith) k, url_byte-body c h.0)

url_char-ne-nul : (body : Bytes) → All IsBody body → All (λ c. c ≢ 0) (map url_char body)
url_char-ne-nul [] h = tt
url_char-ne-nul (c ∷ body) h = (ground arith, url_char-ne-nul body h.1)

-- The padding of a base64 text: none, one or two '='.
pub data Padding : Type 0 where
  no_pad one_pad two_pads : Padding

abbrev pub pads : Padding → Bytes
pads no_pad = []
pads one_pad = b'=' ∷ []
pads two_pads = b'=' ∷ b'=' ∷ []

-- The length that `to_b64_url` returns behind a body of `n` bytes.
abbrev pub returned : Padding → ℕ → ℕ
returned no_pad n = n
returned one_pad n = n
returned two_pads n = n + 1

-- What the loop leaves of the padding.
abbrev blanked : Padding → Bytes
blanked no_pad = []
blanked one_pad = 0 ∷ []
blanked two_pads = 0 ∷ b'=' ∷ []

b64_loop-pads :
    (p : Padding) (n : ℕ) → b64_loop n (n + length (pads p)) (pads p) ≡ (blanked p, returned p n)
unfolding b64_loop
b64_loop-pads no_pad n = ground arith
b64_loop-pads one_pad n = ground arith
b64_loop-pads two_pads n = ground arith

take-append : (k n : ℕ) (xs ys : Bytes) → n ≡ length xs + k → take n (xs ++ ys) ≡ xs ++ take k ys
take-append k n [] ys e = ap (λ (m : ℕ). take m ys) (let z : n ≡ k = omega arith in z)
take-append k zero (x ∷ xs) ys e = absurd (omega arith)
take-append k (suc n) (x ∷ xs) ys e = ap (◌∷◌ x) (take-append k n xs ys (omega arith))

printed-blanked :
    (p : Padding) (n : ℕ) (body : Bytes)
    → n ≡ length body
    → All (λ c. c ≢ 0) body
    → printed (body ++ blanked p, returned p n) ≡ body
printed-blanked no_pad n body e h =
    rw (take-append 0 n body [] (omega arith), append-nil) (until_nul_lem body h)
printed-blanked one_pad n body e h =
    rw (take-append 0 n body (0 ∷ []) (omega arith), append-nil) (until_nul_lem body h)
printed-blanked two_pads n body e h =
    rw (take-append 1 (n + 1) body (0 ∷ b'=' ∷ []) (omega arith)) (until_nul-append body [] h)

to_b64_url-pads :
    (body : Bytes) (p : Padding)
    → All IsBody body
    → to_b64_url (body ++ pads p) (length (body ++ pads p))
      ≡ (map url_char body ++ blanked p, returned p (length body))
unfolding to_b64_url
to_b64_url-pads body p h = rw (length-append body (pads p)) (
    b64_loop-body 0 (length body) (length body + length (pads p)) body (pads p) h (omega arith)
      (omega arith)
    ∙ ap (λ (r : Bytes × ℕ). (map url_char body ++ r.0, r.1)) (b64_loop-pads p (length body)))

-- For a base64 text that ends in no, one or two '=' and holds no other '=' and no NUL, what is
-- printed of the result is its body in the URL-safe alphabet, without the padding; the length
-- returned is that of the body, and one more where there are two '='.
pub to_b64_url_lem :
    (body : Bytes) (p : Padding)
    → All IsBody body
    → let r = to_b64_url (body ++ pads p) (length (body ++ pads p)) in
      (printed r ≡ map url_char body) × (r.1 ≡ returned p (length body))
to_b64_url_lem body p h = (
  ap printed (to_b64_url-pads body p h)
      ∙ printed-blanked p (length body) (map url_char body) (sym (length-map url_char body))
          (url_char-ne-nul body h),
  ap (λ (r : Bytes × ℕ). r.1) (to_b64_url-pads body p h),
)
