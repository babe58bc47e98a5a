-- ===== src/Stream/MultiReadAt/Read.antt =====
-- `Read` reads on from the current offset, and keeps the index of the current reader right.
use musicbox.Prelude.{
  ℕ, ◌+◌, ◌-◌, ◌≤◌, ◌<◌, ◌≡◌, ap, ◌∙◌, false, none, some, List, [], arith, ltb, if◌then◌else◌,
  length, get_elem?, drop,
}
use musicbox.Prelude.Int64
use musicbox.Stream.Io.{eof, ReadResult}
use musicbox.Stream.SizedReaders.{search}
use musicbox.Stream.SizedReaders.Chain.{skip, end_of_reader, skip_mono, remaining}
use musicbox.Stream.SizedReaders.Search.{search-eq}
use musicbox.Stream.SizedReaders.Contents.{joined, Located, locate, total-eq-length}
use musicbox.Stream.MultiReadAt.{
  MultiReadAtSeekCloser, is_eof, Outcome, returned, advance, read_from, read,
}
use musicbox.Stream.MultiReadAt.Serve.{
  Serves, eof_at_end, got, no_failure, settle-got, Serves-got, IsJoined,
}

-- The invariant of a reader that reads and seeks: the readers before `idx` end at or before `off`.
pub record IsAt (cs : List (List ℕ)) (m : MultiReadAtSeekCloser) : Type 0 where
  pub parts : IsJoined cs m
  pub off_small : m.off < Int64.sign_bit
  pub behind : m.off < length (joined cs) → m.idx ≤ skip m.off m.r

-- What a `Read` of `n` bytes does, from the state before it.
pub record Reads (cs : List (List ℕ)) (m : MultiReadAtSeekCloser) (n : ℕ)
    (result : Outcome × MultiReadAtSeekCloser) : Type 0 where
  pub got : ReadResult
  pub out_is : result.0 ≡ returned got.0 got.1
  pub serves : Serves n m.off (joined cs) got
  pub moved : result.1.off ≡ m.off + length got.0
  pub keeps : IsAt cs result.1

module _ (cs : List (List ℕ)) (m : MultiReadAtSeekCloser) (n : ℕ) (l : Located 0 m.off cs m.r)
    (at : IsAt cs m) (h : m.off < length (joined cs)) (i : ℕ)
    (here : m.idx + i ≡ skip m.off m.r) where
  answer : ReadResult
  answer = got n m.off cs m.r l

  read_from_lem : read_from m n i l.reader ≡ (
    returned answer.0 (if ltb (advance m i answer).idx (length m.r - 1) then none else answer.1),
    advance m i answer,
  )
  unfolding read_from answer got
  read_from_lem =
      let bound = end_of_reader 0 (skip m.off m.r) m.r l.reader at.parts.chain l.at in
      let whole = total-eq-length cs m.r at.parts.contents in
      let local : Int64.sub m.off l.reader.accum ≡ m.off - l.reader.accum =
        Int64.sub_small m.off l.reader.accum l.from (omega (arith, at.off_small)) in
      rw (
        local,
        no_failure n m.off cs m.r l,
        settle-got n m.off cs m.r l (ltb (advance m i (got n m.off cs m.r l)).idx (length m.r - 1))
            (omega (arith, at.parts.small)),
      )

  same_err :
      (if ltb (advance m i answer).idx (length m.r - 1) then none else answer.1)
      ≡ (if ltb (skip m.off m.r) (length m.r - 1) then none else answer.1)
  unfolding advance is_eof answer
  same_err = ground (arith, eof_at_end n m.off cs m.r l)

  off-advance : (advance m i answer).off ≡ m.off + length answer.0
  unfolding advance answer
  off-advance =
      let s = Serves-got n m.off cs m.r l (omega arith) in
      ground
        (arith, s.within, at.parts.small, Int64.add_small m.off (length (got n m.off cs m.r l).0))

  advance-IsAt : IsAt cs (advance m i answer)
  advance-IsAt = record {
    parts = record {
      chain = rw same_r at.parts.chain;
      contents = rw same_r at.parts.contents;
      limit = same_limit ∙ at.parts.limit;
      small = at.parts.small;
    };
    off_small = omega (arith, off-advance, s.within, at.parts.small);
    behind = λ k.
        rw (off-advance, same_r)
          (omega (arith, idx_behind, skip_mono m.off (m.off + length answer.0) m.r (omega arith)));
  }
    where
      s :
          Serves n m.off
            (joined cs)
            (answer.0, (if ltb (skip m.off m.r) (length m.r - 1) then none else answer.1))
      s = unfold answer in Serves-got n m.off cs m.r l (omega arith)

      same_r : (advance m i answer).r ≡ m.r
      same_r = unfold advance in ground arith

      same_limit : (advance m i answer).upper_limit ≡ m.upper_limit
      same_limit = unfold advance in ground arith

      idx_behind : (advance m i answer).idx ≤ skip m.off m.r
      idx_behind = unfold advance in ground (arith, at.behind h)

  read_from-Reads : Reads cs m n (read_from m n i l.reader)
  read_from-Reads = record {
    got = (answer.0, (if ltb (skip m.off m.r) (length m.r - 1) then none else answer.1));
    out_is = ap (λ p. p.0) read_from_lem ∙ ap (returned answer.0) same_err;
    serves = unfold answer in Serves-got n m.off cs m.r l (omega arith);
    moved = ap (λ p. p.1.off) read_from_lem ∙ off-advance;
    keeps = rw read_from_lem advance-IsAt;
  }

module _ (cs : List (List ℕ)) (m : MultiReadAtSeekCloser) (n : ℕ) (at : IsAt cs m) where
  -- Within the contents `Read` neither panics nor fails: it serves bytes and moves on by as many.
  pub read-Reads : m.off < length (joined cs) → Reads cs m n (read m n)
  unfolding read
  read-Reads h =
      let whole = total-eq-length cs m.r at.parts.contents in
      let l = locate 0 m.off cs m.r at.parts.chain at.parts.contents (omega arith) (omega arith) in
      let left = remaining 0 m.off m.idx m.r at.parts.chain (omega arith) (at.behind h) in
      let inside : Int64.le m.upper_limit m.off ≡ false =
        unfold Int64.le in ground (arith, at.parts.limit, at.parts.small) in
      let in_range : ltb (length m.r) m.idx ≡ false = ground (arith, left.in_bounds) in
      let found : search m.off (drop m.idx m.r) ≡ some (skip m.off (drop m.idx m.r)) =
        search-eq left.start m.off (drop m.idx m.r) left.chain
          (omega (arith, left.same_end, at.parts.small)) left.from (omega (arith, left.same_end)) in
      let reader : get_elem? (drop m.idx m.r) (skip m.off (drop m.idx m.r)) ≡ some l.reader =
        left.same_reader _ ∙ ap (get_elem? m.r) left.skipped ∙ l.at in
      rw (inside, in_range, found, reader)
        (read_from-Reads cs m n l at h (skip m.off (drop m.idx m.r)) left.skipped)

  -- At and behind the end `Read` returns io.EOF and changes nothing.
  pub read_past : length (joined cs) ≤ m.off → read m n ≡ (returned [] (some eof), m)
  unfolding read Int64.le
  read_past h = ground (arith, at.parts.limit, at.off_small)
