-- ===== src/Receive/Losses.antt =====
-- The record of losses that read_tfs_pkts of src/iptfs.c keeps counts every frame that is missing.
use native.Mathlib.Nat.{add-zero, add_assoc}
use iptfs.Prelude.{
  ap, ℕ, ◌+◌, ◌-◌, ◌<◌, ◌≡◌, ◌≢◌, refl, ◌∙◌, List, [], ◌∷◌, ltb, if◌then◌else◌, u32, arith,
}
use iptfs.Mbuf.{Ackinfo, no_acks}
use iptfs.Util.RunAvg.History.{AllSmall}
use iptfs.Receive.{Arrival, duplicate, after_loss, in_order, check_seq}

abbrev pub ack_of : Arrival → Ackinfo
ack_of (duplicate ack) = ack
ack_of (after_loss ack) = ack
ack_of (in_order ack) = ack

-- The record after the frames with the given sequence numbers.
abbrev pub after_all : Ackinfo → List ℕ → Ackinfo
after_all ack [] = ack
after_all ack (seq ∷ seqs) = after_all (ack_of (check_seq ack seq)) seqs

-- The highest of `last` and the numbers in a list.
abbrev pub highest : ℕ → List ℕ → ℕ
highest last [] = last
highest last (seq ∷ seqs) = highest (if ltb last seq then seq else last) seqs

-- How many numbers in a list are higher than `last` and all those before them.
abbrev pub kept : ℕ → List ℕ → ℕ
kept last [] = 0
kept last (seq ∷ seqs) =
    (if ltb last seq then 1 else 0) + kept (if ltb last seq then seq else last) seqs

-- The record is about the frames since `start`, of which `c` have been kept after the first one.
record Tracks (c : ℕ) (ack : Ackinfo) : Type 0 where
  started : ack.start ≢ 0
  word : ack.last < u32
  total : ack.start + ack.ndrop + c ≡ ack.last

module _ {c : ℕ} {ack : Ackinfo} (seq : ℕ) (t : Tracks c ack) (small : seq < u32) where
  check_seq-Tracks : Tracks (c + (if ltb ack.last seq then 1 else 0)) (ack_of (check_seq ack seq))
  unfolding check_seq
  check_seq-Tracks = record {
    started = ground (arith, t.started);
    word = ground (arith, t.started, t.word);
    total = ground (arith, t.started, t.word, t.total);
  }

  check_seq-fields :
      ((ack_of (check_seq ack seq)).start ≡ ack.start)
      × ((ack_of (check_seq ack seq)).last ≡ (if ltb ack.last seq then seq else ack.last))
  unfolding check_seq
  check_seq-fields = ground (arith, t.started)

after_all-Tracks :
    (seqs : List ℕ) {c : ℕ} {ack : Ackinfo}
    → Tracks c ack
    → AllSmall seqs
    → let ack' = after_all ack seqs in
      Tracks (c + kept ack.last seqs) ack'
      × (ack'.start ≡ ack.start)
      × (ack'.last ≡ highest ack.last seqs)
after_all-Tracks [] {c} {ack} t small = (rw add-zero t, refl, refl)
after_all-Tracks (seq ∷ seqs) {c} {ack} t (small, smalls) =
    let (start, last) = check_seq-fields seq t small in
    let (t', start', last') = after_all-Tracks seqs (check_seq-Tracks seq t small) smalls in
    (
      rw
          (
            ← add_assoc c (if ltb ack.last seq then 1 else 0)
                (kept (if ltb ack.last seq then seq else ack.last) seqs),
            ← last,
          )
          t',
      start' ∙ start,
      last' ∙ ap (λ k. highest k seqs) last,
    )

abbrev first_record : ℕ → Ackinfo
first_record seq = record { start = seq; last = seq; ndrop = 0 }

check_seq-first : (seq : ℕ) → 0 < seq → ack_of (check_seq no_acks seq) ≡ first_record seq
unfolding check_seq
check_seq-first seq pos = ground arith

first_record-Tracks : (seq : ℕ) → 0 < seq → seq < u32 → Tracks 0 (first_record seq)
first_record-Tracks seq pos small = record {
  started = omega (arith, pos);
  word = small;
  total = omega arith;
}

-- From an empty record, after data frames with the sequence numbers `seq`, not 0, and `seqs`, all below
-- 2 ^ 32 and in whatever order, the record starts with the first number and ends with the highest one,
-- and the drops that it counts and the frames that were kept, those with a number above all before
-- them, make up the whole range between the two: no missing frame goes uncounted, and none is counted
-- twice.
pub losses_lem :
    (seq : ℕ) (seqs : List ℕ)
    → 0 < seq
    → seq < u32
    → AllSmall seqs
    → let ack = after_all no_acks (seq ∷ seqs) in
      (ack.start ≡ seq)
      × (ack.last ≡ highest seq seqs)
      × (ack.ndrop + (1 + kept seq seqs) ≡ ack.last - ack.start + 1)
losses_lem seq seqs pos small smalls =
    let (t, start, last) = after_all-Tracks seqs (first_record-Tracks seq pos small) smalls in
    rw (after_all, check_seq-first seq pos) (start, last, omega (arith, t.total, start))
