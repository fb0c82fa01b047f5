-- ===== src/Artifact/FileDigest.antt =====
-- DigestFile of pkg/artifact/artifact.go.
use claim2kernel.Artifact.{FilePath, OpenFile, Os, bytes_digest, read_limit}
use claim2kernel.Base.{
  Bool, Bool-cases, Bytes, Option-cases, String, ap, arith, false, if◌then◌else◌, inl, inr, length,
  ltb, nat_eq, none, some, subst, sym, take, take_whole, true, ℕ, ◌&&◌, ◌-◌, ◌<◌, ◌^◌, ◌∙◌, ◌≡◌,
  ◌⊎◌,
}
use claim2kernel.Base.Int.{leb_ℤ, ltb_ℤ, negsuc, pos, ℤ, ◌+ℤ◌}

pub data DigestError : Type 0 where
  max_not_positive unopened read_failed : DigestError
  file_too_long : ℤ → DigestError

module _ (os : Os) where
  unfoldable pub digest_open : OpenFile → ℤ → DigestError ⊎ (String × ℤ)
  unfolding bytes_digest read_limit take
  digest_open f max =
      let copied = take (read_limit max) f.bytes in
      if f.read_fails && ltb (length f.bytes) (read_limit max)
      then inl read_failed
      else if ltb_ℤ max (pos (length copied))
      then inl (file_too_long (pos (length copied)))
      else inr (bytes_digest os copied, pos (length copied))

  -- DigestFile
  unfoldable pub digest_file : os.Disk → FilePath → ℤ → DigestError ⊎ (String × ℤ)
  unfolding digest_open
  digest_file disk path max =
      if leb_ℤ max (pos 0)
      then inl max_not_positive
      else elim (os.open_file disk path) [ none ↦ inl unopened | some f ↦ digest_open f max ]

  pub record IsDigest (disk : os.Disk) (path : FilePath) (max : ℤ) (d : String) (n : ℤ)
      : Type 0 where
    pub file : OpenFile
    pub opened : os.open_file disk path ≡ some file
    pub complete : file.read_fails ≡ false
    pub digest : d ≡ bytes_digest os file.bytes
    pub size : n ≡ pos (length file.bytes)
    pub bounded : leb_ℤ n max ≡ true

  -- The read stops before its limit, the limit being one above a maximum below the largest `int64`.
  below_limit :
      (max : ℤ) (n : ℕ)
      → ltb_ℤ max (pos (2 ^ 63 - 1)) ≡ true
      → ltb_ℤ max (pos n) ≡ false
      → n < read_limit max
  unfolding read_limit ◌+ℤ◌
  below_limit (negsuc k) n a b = absurd (ground arith)
  below_limit (pos k) n a b = elim (Bool-cases (nat_eq k (2 ^ 63 - 1))) [
    | inl top ↦ absurd (ground arith)
    | inr low ↦ ground arith
  ]

  unfailing : (b : Bool) (n m : ℕ) → (b && ltb n m) ≡ false → n < m → b ≡ false
  unfailing b n m h k = ground (arith, h, k)

  digest_open-whole :
      (f : OpenFile) (max : ℤ) (d : String) (n : ℤ)
      → ltb_ℤ max (pos (2 ^ 63 - 1)) ≡ true
      → digest_open f max ≡ inr (d, n)
      → (f.read_fails ≡ false)
        × (d ≡ bytes_digest os f.bytes)
        × (n ≡ pos (length f.bytes))
        × (leb_ℤ n max ≡ true)
  unfolding digest_open
  digest_open-whole f max d n small h =
      let copied = take (read_limit max) f.bytes in
      elim (Bool-cases (f.read_fails && ltb (length f.bytes) (read_limit max))) [
        | inl bad ↦ absurd (cc (rw (bad, digest_open) at h))
        | inr read ↦ elim (Bool-cases (ltb_ℤ max (pos (length copied)))) [
          | inl bad ↦ absurd (cc (rw (read, bad, digest_open) at h))
          | inr fits ↦
              let short = below_limit max (length copied) small fits in
              let whole = take_whole (read_limit max) f.bytes short in
              let result : (bytes_digest os copied, pos (length copied)) ≡ (d, n) =
                cc (rw (read, fits, digest_open) at h) in
              (
                unfailing f.read_fails (length f.bytes) (read_limit max) read
                    (subst (λ (w : Bytes). length w < read_limit max) whole short),
                sym (ap (λ (r : String × ℤ). r.0) result) ∙ ap (bytes_digest os) whole,
                sym (ap (λ (r : String × ℤ). r.1) result)
                    ∙ ap (λ (w : Bytes). pos (length w)) whole,
                subst (λ (m : ℤ). leb_ℤ m max ≡ true) (ap (λ (r : String × ℤ). r.1) result)
                    (ground (arith, fits)),
              )
        ]
      ]

  -- Below a maximum of 2^63 - 1, what DigestFile returns is the digest and the length of the whole file,
  -- read without an error, and the length is at most the maximum.
  pub digest_file-IsDigest :
      (disk : os.Disk) (path : FilePath) (max : ℤ) (d : String) (n : ℤ)
      → ltb_ℤ max (pos (2 ^ 63 - 1)) ≡ true
      → digest_file disk path max ≡ inr (d, n)
      → IsDigest disk path max d n
  unfolding digest_file
  digest_file-IsDigest disk path max d n small h = elim (Bool-cases (leb_ℤ max (pos 0))) [
    | inl bad ↦ absurd (cc (rw (bad, digest_file) at h))
    | inr positive ↦ elim (Option-cases (os.open_file disk path)) [
      | inl bad ↦ absurd (cc (rw (positive, bad, digest_file) at h))
      | inr (f, opened) ↦
          let (a, b, c, e) =
            digest_open-whole f max d n small (rw (positive, opened, digest_file) at h) in
          record { file = f; opened = opened; complete = a; digest = b; size = c; bounded = e }
    ]
  ]
