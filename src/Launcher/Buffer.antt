-- ===== src/Launcher/Buffer.antt =====
-- limitedBuffer of pkg/launcher/launcher.go: an output kept up to a limit.
use claim2kernel.Base.{
  All, Bool, Bool-cases, Bytes, List, [], ap, append-nil, append_assoc, arith, false, if◌then◌else◌,
  inl, inr, length, length-append, ltb, refl, subst, sym, take, take-append_before,
  take-append_behind, take_all, true, ℕ, ◌++◌, ◌-◌, ◌<◌, ◌∙◌, ◌∷◌, ◌≡◌, ◌≤◌,
}
use claim2kernel.Base.Int.{leb_ℤ, ltb_ℤ, pos, pos_part, ℤ, ◌-ℤ◌}

-- The buffer under its lock.
pub record LimitedBuffer : Type 0 where
  pub content : Bytes
  pub limit : ℤ
  pub exceeded : Bool

-- newLimitedBuffer
unfoldable pub new_buffer : ℤ → LimitedBuffer
new_buffer limit = record { content = []; limit = limit; exceeded = false }

-- limitedBuffer.Write, which always reports the whole chunk as written
unfoldable pub write : Bytes → LimitedBuffer → LimitedBuffer
unfolding ◌-ℤ◌ take
write p b =
    let remaining = b.limit -ℤ pos (length b.content) in
    if b.exceeded
    then b
    else if leb_ℤ remaining (pos 0)
    then record b { exceeded = true }
    else if ltb_ℤ remaining (pos (length p))
    then record b { content = b.content ++ take (pos_part remaining) p; exceeded = true }
    else record b { content = b.content ++ p }

unfoldable pub write_all : List Bytes → LimitedBuffer → LimitedBuffer
unfolding write
write_all [] b = b
write_all (p ∷ ps) b = write_all ps (write p b)

abbrev pub concat : List Bytes → Bytes
concat [] = []
concat (p ∷ ps) = p ++ concat ps

-- What the buffer holds of a stream: its first `limit` bytes, and whether there were more.
pub record Holds (stream : Bytes) (limit : ℕ) (b : LimitedBuffer) : Type 0 where
  pub bounded : b.limit ≡ pos limit
  pub content : b.content ≡ take limit stream
  pub flagged : b.exceeded ≡ ltb limit (length stream)

Holds-new_buffer : (limit : ℕ) → Holds [] limit (new_buffer (pos limit))
unfolding new_buffer take
Holds-new_buffer limit = record { bounded = refl; content = refl; flagged = ground arith }

write_past :
    (stream p : Bytes) (limit : ℕ) (b : LimitedBuffer)
    → Holds stream limit b
    → b.exceeded ≡ true
    → Holds (stream ++ p) limit (write p b)
unfolding write
write_past stream p limit b k past =
    let over : limit < length stream = ground (arith, past, k.flagged) in
    rw (past, write)
      (record {
        bounded = k.bounded;
        content = k.content ∙ sym (take-append_before limit stream p (omega arith));
        flagged = ground (arith, over, length-append stream p);
      })

-- The space left in a buffer that was not exceeded.
space_left : (limit n : ℕ) → n ≤ limit → pos limit -ℤ pos n ≡ pos (limit - n)
unfolding ◌-ℤ◌
space_left limit n h = ground arith

write_within :
    (stream p : Bytes) (limit : ℕ) (b : LimitedBuffer)
    → Holds stream limit b
    → b.exceeded ≡ false
    → 1 ≤ length p
    → Holds (stream ++ p) limit (write p b)
unfolding write
write_within stream p limit b k inside some_bytes =
    let fits : length stream ≤ limit = ground (arith, inside, k.flagged) in
    let held : b.content ≡ stream = k.content ∙ take_all limit stream fits in
    let left : b.limit -ℤ pos (length b.content) ≡ pos (limit - length stream) =
      ap (λ (l : ℤ). l -ℤ pos (length b.content)) k.bounded
      ∙ ap (λ (c : Bytes). pos limit -ℤ pos (length c)) held
      ∙ space_left limit (length stream) fits in
    let joined = length-append stream p in
    elim (Bool-cases (leb_ℤ (pos (limit - length stream)) (pos 0))) [
      | inl full ↦
          rw (inside, left, full, write)
            (record {
              bounded = k.bounded;
              content = k.content ∙ sym (take-append_before limit stream p (ground (arith, full)));
              flagged = ground (arith, full, joined, some_bytes);
            })
      | inr roomy ↦ elim (Bool-cases (ltb_ℤ (pos (limit - length stream)) (pos (length p)))) [
        | inl long ↦
            rw (inside, left, roomy, long, write)
              (record {
                bounded = k.bounded;
                content =
                    ap (λ c. c ++ take (limit - length stream) p) held
                    ∙ sym (take-append_behind limit (limit - length stream) stream p (omega arith));
                flagged = ground (arith, long, joined, fits);
              })
        | inr short ↦
            rw (inside, left, roomy, short, write)
              (record {
                bounded = k.bounded;
                content =
                    ap (λ c. c ++ p) held
                    ∙ sym (take_all limit (stream ++ p) (ground (arith, short, joined, fits)));
                flagged = ground (arith, short, joined, fits);
              })
      ]
    ]

Holds-write :
    (stream p : Bytes) (limit : ℕ) (b : LimitedBuffer)
    → Holds stream limit b
    → 1 ≤ length p
    → Holds (stream ++ p) limit (write p b)
Holds-write stream p limit b k some_bytes = elim (Bool-cases b.exceeded) [
  | inl past ↦ write_past stream p limit b k past
  | inr inside ↦ write_within stream p limit b k inside some_bytes
]

Holds-write_from :
    (stream : Bytes) (chunks : List Bytes) (limit : ℕ) (b : LimitedBuffer)
    → Holds stream limit b
    → All (λ (p : Bytes). 1 ≤ length p) chunks
    → Holds (stream ++ concat chunks) limit (write_all chunks b)
unfolding write_all
Holds-write_from stream [] limit b k h = subst (λ s. Holds s limit b) (sym (append-nil stream)) k
Holds-write_from stream (p ∷ chunks) limit b k h =
    subst (λ s. Holds s limit (write_all chunks (write p b)))
      (append_assoc stream p (concat chunks))
      (Holds-write_from (stream ++ p) chunks limit (write p b) (Holds-write stream p limit b k h.0)
        h.1)

-- After any writes of chunks that are not empty, a new buffer holds the first `limit` bytes of their
-- concatenation, and is flagged as exceeded exactly where there were more.
pub Holds-write_all :
    (chunks : List Bytes) (limit : ℕ)
    → All (λ (p : Bytes). 1 ≤ length p) chunks
    → Holds (concat chunks) limit (write_all chunks (new_buffer (pos limit)))
Holds-write_all chunks limit h =
    Holds-write_from [] chunks limit (new_buffer (pos limit)) (Holds-new_buffer limit) h
