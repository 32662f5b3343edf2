-- ===== src/S3/ReadFileChunk/Window.antt =====
-- Whatever the reads, a chunk gives the bytes of its window, in order, and no other.
use m_awsexp.S3.ReadFileChunk.{Bytes, ReadFileChunk, open_chunk, read, seek, read_file, moved}
use native.Mathlib.Decide.{dec_le}
use m_awsexp.Common.{
  Option, take, ℕ, ◌≡◌, List, ◌∷◌, arith, ◌+◌, ◌≤◌, ◌-◌, some, drop, length, ◌++◌, [], length-take,
  min, none, length-drop, ap, ◌∙◌, drop-drop, refl, take-append-take-drop, take_of_length-le,
}
use mathlib.Core.List.{append_assoc}

-- The position goes with the count of what was read, inside a window that lies in the file.
pub record IsWithin (r : ReadFileChunk) : Type 0 where
  pub at_count : r.position ≡ r.start_byte + r.amount_read
  pub in_window : r.amount_read ≤ r.size
  pub in_file : r.start_byte + r.size ≤ length r.contents

pub open_chunk-IsWithin :
    (contents : Bytes) (start_byte size : ℕ)
    → start_byte ≤ length contents
    → IsWithin (open_chunk contents start_byte size)
unfolding open_chunk
open_chunk-IsWithin contents start_byte size h = omega arith

length-read_file :
    (r : ReadFileChunk) (n : ℕ) → r.position + n ≤ length r.contents → length (read_file r n) ≡ n
length-read_file r n h =
    omega (arith, length-take n (drop r.position r.contents), length-drop r.position r.contents)

pub read-IsWithin :
    (amount : Option ℕ) (r : ReadFileChunk) → IsWithin r → IsWithin (read amount r).1
unfolding read
read-IsWithin none r w = ground (arith, length-read_file r (r.size - r.amount_read))
read-IsWithin (some n) r w = ground (arith, length-read_file r (min (r.size - r.amount_read) n))

pub seek-IsWithin :
    (where_ : ℕ) (r : ReadFileChunk) → where_ ≤ r.size → IsWithin r → IsWithin (seek where_ r)
unfolding seek
seek-IsWithin where_ r h w = ground arith

-- What is left of the window.
abbrev pub remaining : ReadFileChunk → Bytes
remaining r = take (r.size - r.amount_read) (drop (r.start_byte + r.amount_read) r.contents)

-- The reads of a client, one after another.
unfoldable pub read_all : List (Option ℕ) → ReadFileChunk → Bytes × ReadFileChunk
read_all [] r = ([], r)
read_all (a ∷ amounts) r =
    let (data_, r') = read a r in let (rest, r'') = read_all amounts r' in (data_ ++ rest, r'')

-- What a read takes and what it leaves make up what was left before.
read_window :
    (r : ReadFileChunk) (n : ℕ)
    → IsWithin r
    → n ≤ r.size - r.amount_read
    → read_file r n ++ remaining (moved r n) ≡ remaining r
read_window r n w h =
    let e : r.start_byte + (r.amount_read + n) ≡ r.position + n = omega arith in
    let f : r.size - (r.amount_read + n) ≡ r.size - r.amount_read - n = omega arith in
    rw (e, f, ← w.at_count, ← drop-drop n r.position r.contents)
      (take-append-take-drop n (r.size - r.amount_read) (drop r.position r.contents) h)

read-remaining :
    (amount : Option ℕ) (r : ReadFileChunk)
    → IsWithin r
    → (read amount r).0 ++ remaining (read amount r).1 ≡ remaining r
unfolding read
read-remaining none r w = read_window r _ w (omega arith)
read-remaining (some n) r w = read_window r _ w (omega arith)

read_all-IsWithin :
    (amounts : List (Option ℕ)) (r : ReadFileChunk) → IsWithin r → IsWithin (read_all amounts r).1
unfolding read_all
read_all-IsWithin [] r w = w
read_all-IsWithin (a ∷ amounts) r w = read_all-IsWithin amounts (read a r).1 (read-IsWithin a r w)

read_all-remaining :
    (amounts : List (Option ℕ)) (r : ReadFileChunk)
    → IsWithin r
    → (read_all amounts r).0 ++ remaining (read_all amounts r).1 ≡ remaining r
unfolding read_all
read_all-remaining [] r w = refl
read_all-remaining (a ∷ amounts) r w =
    append_assoc (read a r).0 _ _
    ∙ ap (◌++◌ (read a r).0) (read_all-remaining amounts (read a r).1 (read-IsWithin a r w))
    ∙ read-remaining a r w

-- A read without an amount leaves nothing.
read-none : (r : ReadFileChunk) → IsWithin r → (read none r).0 ≡ remaining r
unfolding read
read-none r w = rw w.at_count

read_to_end :
    (amounts : List (Option ℕ)) (r : ReadFileChunk)
    → IsWithin r
    → (read_all amounts r).0 ++ (read none (read_all amounts r).1).0 ≡ remaining r
read_to_end amounts r w =
    rw (read-none (read_all amounts r).1 (read_all-IsWithin amounts r w))
      (read_all-remaining amounts r w)

-- The window itself, which no read moves.
abbrev window : ReadFileChunk → Bytes
window r = take r.size (drop r.start_byte r.contents)

window-read : (amount : Option ℕ) (r : ReadFileChunk) → window (read amount r).1 ≡ window r
unfolding read
window-read none r = refl
window-read (some n) r = refl

window-read_all :
    (amounts : List (Option ℕ)) (r : ReadFileChunk) → window (read_all amounts r).1 ≡ window r
unfolding read_all
window-read_all [] r = refl
window-read_all (a ∷ amounts) r = window-read_all amounts (read a r).1 ∙ window-read a r

remaining-seek : (r : ReadFileChunk) → remaining (seek 0 r) ≡ window r
unfolding seek
remaining-seek r =
    let e : r.size - 0 ≡ r.size = omega arith in
    let f : r.start_byte + 0 ≡ r.start_byte = omega arith in rw (e, f)

take-min : (n : ℕ) (xs : Bytes) → take (min (length xs) n) xs ≡ take n xs
take-min n xs = elim (dec_le n (length xs)) [
  | yes p ↦ let e : min (length xs) n ≡ n = omega arith in rw e
  | no p ↦
      let e : min (length xs) n ≡ length xs = omega arith in
      rw (e, take_of_length-le (length xs) xs (omega arith), take_of_length-le n xs (omega arith))
]

pub window-open_chunk :
    (contents : Bytes) (start_byte size : ℕ)
    → window (open_chunk contents start_byte size) ≡ take size (drop start_byte contents)
unfolding open_chunk
window-open_chunk contents start_byte size =
    rw (← length-drop start_byte contents) (take-min size (drop start_byte contents))

remaining-open_chunk :
    (contents : Bytes) (start_byte size : ℕ)
    → remaining (open_chunk contents start_byte size) ≡ window (open_chunk contents start_byte size)
unfolding open_chunk
remaining-open_chunk contents start_byte size =
    let n = min (length contents - start_byte) size in
    let e : n - 0 ≡ n = omega arith in
    let f : start_byte + 0 ≡ start_byte = omega arith in rw (e, f)

-- However a client divides its reads of a fresh chunk, they are followed by a read to the end, and
-- together they give the bytes of the file from `start_byte` on, `size` of them or as many as there
-- are; and so once more after `seek(0)`.
pub read_all_lem :
    (contents : Bytes) (start_byte size : ℕ) (amounts again : List (Option ℕ))
    → start_byte ≤ length contents
    → let r = open_chunk contents start_byte size in
      let (first, r') = read_all amounts r in
      let (second, r'') = read_all again (seek 0 r') in
      (first ++ (read none r').0 ≡ take size (drop start_byte contents))
      × (second ++ (read none r'').0 ≡ take size (drop start_byte contents))
read_all_lem contents start_byte size amounts again h =
    let r = open_chunk contents start_byte size in
    let w = open_chunk-IsWithin contents start_byte size h in
    let r' = (read_all amounts r).1 in
    let w' = read_all-IsWithin amounts r w in
    let whole = window-open_chunk contents start_byte size in
    (
      read_to_end amounts r w ∙ remaining-open_chunk contents start_byte size ∙ whole,
      read_to_end again (seek 0 r') (seek-IsWithin 0 r' (omega arith) w')
          ∙ remaining-seek r'
          ∙ window-read_all amounts r
          ∙ whole,
    )
