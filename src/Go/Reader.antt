-- ===== src/Go/Reader.antt =====
-- `io.Reader` and `io.ReadFull`. A reader is the sequence of what its next reads make available: some
-- bytes, and perhaps an error beside them. A read of `n` bytes takes at most `n` of them; past the
-- end every read returns `io.EOF`.
use arxveil.Prelude.{
  ◌⊎◌, inl, inr, subst, ℕ, zero, suc, ◌-◌, Bool, false, All, ◌≤◌, ◌≡◌, refl, Option, none, some,
  List, [], ◌∷◌, ◌++◌, length, All-append, All-take, length-append, length-take, take, drop, leb,
  ltb, if◌then◌else◌, arith,
}
use arxveil.Go.Text.{Bytes}
use arxveil.Go.Fault.{Fault, Sentinel, sentinel, eof, unexpected_eof, is, ok, err}
use arxveil.Go.Exec.{Exec}

pub record Chunk : Type 0 where
  pub bytes : Bytes
  pub fault : Option Fault

abbrev pub Reader : Type 0
Reader = List Chunk

-- The end of `io.ReadAtLeast`, after a read error.
abbrev read_failure : Bytes → Fault → Fault
read_failure [] e = e
read_failure (_ ∷ _) e = if is e eof then sentinel unexpected_eof else e

-- The loop of `io.ReadFull` on a buffer of `n` bytes, of which `got` have been read.
unfoldable pub read_rest : ℕ → Bytes → Exec Reader Bytes
read_rest n got [] = (err (read_failure got (sentinel eof)), [])
read_rest n got (c ∷ rest) =
    let room = n - length got in
    let got' = got ++ take room c.bytes in
    let more = read_rest n got' rest in
    if ltb room (length c.bytes)
    then (ok got', record c { bytes = drop room c.bytes } ∷ rest)
    else if leb n (length got')
    then (ok got', rest)
    else elim c.fault [ none ↦ more | some e ↦ (err (read_failure got' e), rest) ]

-- `io.ReadFull`. An empty buffer is full before the first read.
unfoldable pub read_full : ℕ → Exec Reader Bytes
unfolding read_rest
read_full zero r = (ok [], r)
read_full (suc n) r = read_rest (suc n) [] r

-- A read that succeeds has filled the buffer.
length-read_rest :
    (n : ℕ) (got : Bytes) (r : Reader) (bytes : Bytes)
    → length got ≤ n
    → (read_rest n got r).0 ≡ ok bytes
    → length bytes ≡ n
unfolding read_rest
length-read_rest n got [] bytes h e = cc
length-read_rest n got (c ∷ rest) bytes h e = ground (
  arith,
  length-append got (take (n - length got) c.bytes),
  length-take (n - length got) c.bytes,
  length-read_rest n (got ++ take (n - length got) c.bytes) rest bytes,
)

pub length-read_full :
    (n : ℕ) (r : Reader) (bytes : Bytes) → (read_full n r).0 ≡ ok bytes → length bytes ≡ n
unfolding read_full
length-read_full zero r [] e = refl
length-read_full zero r (x ∷ bytes) e = cc
length-read_full (suc n) r bytes e = length-read_rest (suc n) [] r bytes (omega arith) e

abbrev pub faults_with : Sentinel → Option Fault → Bool
faults_with t none = false
faults_with t (some e) = is e t

-- No read of this reader fails with an error that wraps the sentinel.
abbrev pub NeverFaultsWith : Sentinel → Reader → Type 0
NeverFaultsWith t r = All (λ c. faults_with t c.fault ≡ false) r

read_failure-is :
    (t : Sentinel) (got : Bytes) (e : Fault)
    → is (sentinel unexpected_eof) t ≡ false
    → is e t ≡ false
    → is (read_failure got e) t ≡ false
read_failure-is t [] e h k = k
read_failure-is t (x ∷ got) e h k = ground (arith, h, k)

module _ (t : Sentinel) (ends : is (sentinel eof) t ≡ false)
    (short : is (sentinel unexpected_eof) t ≡ false) where
  read_rest_fault :
      (n : ℕ) (got : Bytes) (r : Reader) {e : Fault}
      → NeverFaultsWith t r
      → (read_rest n got r).0 ≡ err e
      → is e t ≡ false
  unfolding read_rest
  read_rest_fault n got [] h q = ground (arith, q, read_failure-is t got (sentinel eof) short ends)
  read_rest_fault n got (c ∷ rest) {e} h q =
      go c.fault refl (read_rest_fault n (got ++ take (n - length got) c.bytes) rest {e = e} h.1)
    where
      go :
          (f : Option Fault)
          → c.fault ≡ f
          → ((read_rest n (got ++ take (n - length got) c.bytes) rest).0 ≡ err e → is e t ≡ false)
          → is e t ≡ false
      go none k later = ground (arith, q, k, later)
      go (some f) k later =
          ground
            (arith, q, k, h.0, read_failure-is t (got ++ take (n - length got) c.bytes) f short)

  -- The errors of `io.ReadFull` are those of the reader, and the two at the end of the input.
  pub read_full_fault :
      (n : ℕ) (r : Reader) {e : Fault}
      → NeverFaultsWith t r
      → (read_full n r).0 ≡ err e
      → is e t ≡ false
  unfolding read_full
  read_full_fault zero r h q = cc
  read_full_fault (suc n) r h q = read_rest_fault (suc n) [] r h q

read_rest-ok :
    (n : ℕ) (got : Bytes) (c : Chunk) (rest : Reader) (bytes : Bytes)
    → (read_rest n got (c ∷ rest)).0 ≡ ok bytes
    → let got' = got ++ take (n - length got) c.bytes in
      (got' ≡ bytes) ⊎ ((read_rest n got' rest).0 ≡ ok bytes)
unfolding read_rest
read_rest-ok n got c rest bytes e = ground (arith, e)

-- The bytes that a read delivers are the reader's.
module _ (P : ℕ → Type 0) where
  filled-All :
      (n : ℕ) (got : Bytes) (c : Chunk)
      → All P got
      → All P c.bytes
      → All P (got ++ take (n - length got) c.bytes)
  filled-All n got c g h =
      All-append P got (take (n - length got) c.bytes) g (All-take P (n - length got) c.bytes h)

  read_rest-All :
      (n : ℕ) (got : Bytes) (r : Reader) (bytes : Bytes)
      → All P got
      → All (λ c. All P c.bytes) r
      → (read_rest n got r).0 ≡ ok bytes
      → All P bytes
  unfolding read_rest
  read_rest-All n got [] bytes g h e = cc
  read_rest-All n got (c ∷ rest) bytes g h e = elim (read_rest-ok n got c rest bytes e) [
    | inl full ↦ subst (All P) full (filled-All n got c g h.0)
    | inr more ↦
        read_rest-All n (got ++ take (n - length got) c.bytes) rest bytes (filled-All n got c g h.0)
          h.1 more
  ]

  pub read_full-All :
      (n : ℕ) (r : Reader) (bytes : Bytes)
      → All (λ c. All P c.bytes) r
      → (read_full n r).0 ≡ ok bytes
      → All P bytes
  unfolding read_full
  read_full-All zero r [] h e = tt
  read_full-All zero r (x ∷ bytes) h e = cc
  read_full-All (suc n) r bytes h e = read_rest-All (suc n) [] r bytes tt h e
