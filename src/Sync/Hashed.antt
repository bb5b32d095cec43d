-- ===== src/Sync/Hashed.antt =====
-- What is known of a hash that was taken and whose response is awaited.
use kitchen_sync.Common.{
  ℕ, ◌-◌, ◌≤◌, ◌<◌, ◌≡◌, ◌≢◌, refl, ap, sym, ◌∙◌, ◌⊎◌, inl, inr, Bool, true, not, ◌&&◌, List, [],
  ◌∷◌, length, take, arith, ==→eq, ◌==◌, Bool-cases, &&-true,
}
use kitchen_sync.Table.{
  RowFormat, Table, IsTable, IsPresent, retrieve_rows, last_key_of, packed_rows,
  first_key_not_earlier_than,
}
use kitchen_sync.Table.Query.{
  retrieve_rows-scan, retrieve_rows_window, first_key_not_earlier_than_bounds,
}
use kitchen_sync.Table.Window.{packed_rows-injective, length-packed_rows, scan_agree, scan_local}
use kitchen_sync.Sync.{
  KeyRange, KeyRangeToCheck, TableJob, HashResult, HashCommand, hash_matches, bytes_eq,
  send_hash_command, ok, next_midpoint_of, handle_hash_command, hash_command_of, hash_result_of,
  unknown_row_count,
}

bytes_eq→eq : (xs ys : List ℕ) → bytes_eq xs ys ≡ true → xs ≡ ys
unfolding bytes_eq
bytes_eq→eq [] [] e = refl
bytes_eq→eq [] (y ∷ ys) e = cc
bytes_eq→eq (x ∷ xs) [] e = cc
bytes_eq→eq (x ∷ xs) (y ∷ ys) e =
    let (head, tail) = &&-true (x == y) (bytes_eq xs ys) e in
    let same = ==→eq x y head in let rest = bytes_eq→eq xs ys tail in cc

module _ (F : RowFormat) where
  -- A range whose rows are to be retrieved ends at one of our rows.
  abbrev pub IsRetrieve : Table F → KeyRange → Type 0
  IsRetrieve original r = (r.prev_key < r.last_key) × IsPresent F original r.last_key

  -- A range that waits for its check ends at one of our rows.
  pub record IsCheck (original : Table F) (r : KeyRangeToCheck) : Type 0 where
    pub ordered : r.prev_key < r.last_key
    pub ends : IsPresent F original r.last_key
    pub some_rows : 1 ≤ r.rows_to_hash

  pub record IsHashed (digest : List ℕ → List ℕ) (original : Table F) (c : HashCommand)
      (h : HashResult) : Type 0 where
    pub ordered : h.prev_key < h.last_key
    pub ends : IsPresent F original h.last_key
    pub some_rows : 1 ≤ c.rows_to_hash
    pub same_prev : c.prev_key ≡ h.prev_key
    pub same_last : c.last_key ≡ h.last_key
    pub row_count :
        h.our_row_count ≡ length (retrieve_rows F original h.prev_key h.last_key c.rows_to_hash)
    pub size :
        h.our_size
        ≡ length (packed_rows F (retrieve_rows F original h.prev_key h.last_key c.rows_to_hash))
    pub hash :
        h.our_hash
        ≡ digest (packed_rows F (retrieve_rows F original h.prev_key h.last_key c.rows_to_hash))
    pub last_row :
        h.our_last_key
        ≡ last_key_of F (retrieve_rows F original h.prev_key h.last_key c.rows_to_hash)
    pub midpoint :
        (h.next_midpoint ≡ 0)
        ⊎ ((h.our_last_key ≤ h.next_midpoint)
            × (h.next_midpoint ≤ h.last_key)
            × IsPresent F original h.next_midpoint)

module _ (F : RowFormat) (digest : List ℕ → List ℕ) (original : Table F)
    (wf : IsTable F original) where
  open F use {Row}

  -- The rows that were hashed for a range that ends at one of our rows are a non-empty start of
  -- the range, no more than was asked for, and all of the range if they are fewer; they end at
  -- one of our rows.
  pub hashed_rows :
      {c : HashCommand} {h : HashResult}
      → IsHashed F digest original c h
      → (1 ≤ h.our_row_count)
        × (h.our_row_count ≤ c.rows_to_hash)
        × (h.prev_key < h.our_last_key)
        × (h.our_last_key ≤ h.last_key)
        × IsPresent F original h.our_last_key
        × (h.our_row_count < c.rows_to_hash → h.our_last_key ≡ h.last_key)
  hashed_rows {c} {h} v =
      rw (v.row_count, v.last_row)
        (retrieve_rows_window F original h.prev_key h.last_key c.rows_to_hash wf v.ordered v.ends
          v.some_rows)

  -- Some bytes were hashed, so that the divisions by `our_size` are by no zero.
  hashed_size : {c : HashCommand} {h : HashResult} → IsHashed F digest original c h → 1 ≤ h.our_size
  hashed_size {c} {h} v =
      let count = (hashed_rows v).0 in
      omega (
        arith,
        v.size,
        v.row_count,
        length-packed_rows F (retrieve_rows F original h.prev_key h.last_key c.rows_to_hash),
      )

  -- `view` shows the same rows in the range.
  abbrev pub Shows : Table F → ℕ → ℕ → Type 0
  Shows view prev last = (k : ℕ) → prev < k → k ≤ last → view.row_at k ≡ original.row_at k

  retrieve_rows-Shows :
      (view : Table F) (prev last n : ℕ)
      → 0 < last
      → Shows view prev last
      → retrieve_rows F view prev last n ≡ retrieve_rows F original prev last n
  retrieve_rows-Shows view prev last n nonempty shows =
      rw
        (
          retrieve_rows-scan F view prev last n nonempty,
          retrieve_rows-scan F original prev last n nonempty,
        )
        (ap (take n) (
          scan_local F view.row_at original.row_at (last - prev) prev
            (λ k lo hi. shows k lo (omega arith))))

  -- A hash result for a waiting range, taken through any view that shows the range's rows.
  module _ (subdivide : ℕ → ℕ → ℕ) (view : Table F) (job : TableJob) (r : KeyRangeToCheck)
      (wf_view : IsTable F view) (v : IsCheck F original r)
      (shows : Shows view r.prev_key r.last_key) where
    same_rows :
        retrieve_rows F view r.prev_key r.last_key r.rows_to_hash
        ≡ retrieve_rows F original r.prev_key r.last_key r.rows_to_hash
    same_rows =
        let o = v.ordered in
        retrieve_rows-Shows view r.prev_key r.last_key r.rows_to_hash (omega arith) shows

    -- A view's first key at or after another lies in the range, at one of our rows.
    first_key-IsPresent :
        (key our_last : ℕ)
        → r.prev_key < our_last
        → our_last < r.last_key
        → IsPresent F original our_last
        → (our_last ≤ first_key_not_earlier_than F view key our_last r.last_key)
          × (first_key_not_earlier_than F view key our_last r.last_key ≤ r.last_key)
          × IsPresent F original (first_key_not_earlier_than F view key our_last r.last_key)
    first_key-IsPresent key our_last lo hi present =
        let (a, b, found) =
          first_key_not_earlier_than_bounds F view key our_last r.last_key wf_view hi in
        (
          a,
          b,
          elim found [
            | inl same ↦ rw same present
            | inr (q, d) ↦ (q, sym (shows _ (omega arith) b) ∙ d)
          ],
        )

    next_midpoint_bounds :
        (count our_last : ℕ)
        → r.prev_key < our_last
        → our_last ≤ r.last_key
        → IsPresent F original our_last
        → (next_midpoint_of F digest subdivide view job r count our_last ≡ 0)
          ⊎ ((our_last ≤ next_midpoint_of F digest subdivide view job r count our_last)
              × (next_midpoint_of F digest subdivide view job r count our_last ≤ r.last_key)
              × IsPresent F original
                  (next_midpoint_of F digest subdivide view job r count our_last))
    unfolding next_midpoint_of
    next_midpoint_bounds count our_last lo hi present = elim (Bool-cases test) [
      | inl t ↦
          let differ : our_last ≢ r.last_key = ground arith in
          rw t (
            inr (
              first_key-IsPresent (subdivide our_last r.last_key) our_last lo (omega arith)
                present))
      | inr f ↦ rw f (inl refl)
    ]
      where
        test : Bool
        test =
            job.subdividable
            && (r.estimated_rows_in_range == unknown_row_count
                && (count == r.rows_to_hash && not (our_last == r.last_key)))

    pub hash_result_of-IsHashed :
        IsHashed F digest original
          (hash_command_of F digest job r)
          (hash_result_of F digest subdivide view job r)
    unfolding hash_result_of hash_command_of
    hash_result_of-IsHashed =
        let (_, _, lo, hi, present, _) =
          retrieve_rows_window F original r.prev_key r.last_key r.rows_to_hash wf v.ordered v.ends
            v.some_rows in
        record {
          ordered = v.ordered;
          ends = v.ends;
          some_rows = v.some_rows;
          same_prev = refl;
          same_last = refl;
          row_count = ap length same_rows;
          size = rw same_rows;
          hash = rw same_rows;
          last_row = rw same_rows;
          midpoint = rw same_rows (next_midpoint_bounds _ _ lo hi present);
        }

  -- A response that matches, from a hash without collisions.
  module _ (source : Table F) (wf_source : IsTable F source)
      (no_collision : (xs ys : List ℕ) → digest xs ≡ digest ys → xs ≡ ys) where
    -- If a hash that was taken of our rows and its response match, and no two inputs of the hash
    -- collide, the source and our table have the same row, or none, at each key after the range's
    -- start up to our last key.
    pub hash_matches-agree :
        {c : HashCommand} {h : HashResult}
        → IsHashed F digest original c h
        → hash_matches h (handle_hash_command F digest source c) ≡ true
        → (k : ℕ) → h.prev_key < k
        → k ≤ h.our_last_key
        → source.row_at k ≡ original.row_at k
    unfolding hash_matches handle_hash_command
    hash_matches-agree {c} {h} v matched k lo hi =
        let nonempty : 0 < h.last_key = omega (arith, v.ordered) in
        let same_hash = bytes_eq→eq h.our_hash _ (&&-true _ _ matched).0 in
        let same_packed = no_collision _ _ (sym v.hash ∙ same_hash) in
        let same_rows = packed_rows-injective F _ _ same_packed in
        let ours = retrieve_rows-scan F original h.prev_key h.last_key c.rows_to_hash nonempty in
        let theirs = retrieve_rows-scan F source h.prev_key h.last_key c.rows_to_hash nonempty in
        let same_scans = rw (v.same_prev, v.same_last, ours, theirs) at same_rows in
        scan_agree F source.row_at original.row_at (h.last_key - h.prev_key) h.prev_key
          c.rows_to_hash 0 k wf_source.placed wf.placed (sym same_scans) (omega arith) lo
          (rw (v.last_row, ours) at hi)

-- A waiting range is never refused ("Can't hash 0 rows"), and what is sent and kept for it is known.
module _ (F : RowFormat) (digest : List ℕ → List ℕ) (original : Table F) (subdivide : ℕ → ℕ → ℕ)
    (view : Table F) (job : TableJob) (r : KeyRangeToCheck) (v : IsCheck F original r) where
  pub send_hash_command_ok :
      send_hash_command F digest subdivide view job r
      ≡ ok (hash_command_of F digest job r, hash_result_of F digest subdivide view job r)
  unfolding send_hash_command
  send_hash_command_ok = let some_rows = v.some_rows in ground arith

  pub send_hash_command_sent :
      {c : HashCommand} {h : HashResult}
      → send_hash_command F digest subdivide view job r ≡ ok (c, h)
      → (c ≡ hash_command_of F digest job r) × (h ≡ hash_result_of F digest subdivide view job r)
  send_hash_command_sent e = let known = sym e ∙ send_hash_command_ok in (cc, cc)

  pub hash_result_of_range :
      ((hash_result_of F digest subdivide view job r).prev_key ≡ r.prev_key)
      × ((hash_result_of F digest subdivide view job r).last_key ≡ r.last_key)
  unfolding hash_result_of
  hash_result_of_range = (refl, refl)
