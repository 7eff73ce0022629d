-- ===== src/Binsort/Genorder/Whole.antt =====
-- binsort_genorder as a whole: the loops before and behind the workers, with any steps of them in between.
use native.Mathlib.Nat.{mod-lt, mod-add-mod}
use native.Mathlib.Decide.{dec_lt}
use binsort.Base.{
  ℕ, ◌+◌, ◌%◌, ◌≡◌, refl, sym, ap, ◌∙◌, Bool, true, false, List, [], ◌++◌, Cells, if◌then◌else◌,
  arith,
}
use binsort.Base.Int.{pos}
use binsort.Binsort.Order.{DirEntry, Distances, getdist, getdist_loop}
use binsort.Binsort.Order.Places.{place, place_injective}
use binsort.Binsort.Order.Delta.{IsSymmetric, IsIndexed, tour}
use binsort.Binsort.Optimise.{Shared, Reachable}
use binsort.Binsort.Optimise.Exact.{workers_distance}
use binsort.Binsort.Optimise.Permute.{IsReordered, IsReordered-trans, workers_reorder}
use binsort.Binsort.Genorder.{Taken, take_files, start_order, end_order}
use binsort.Binsort.Genorder.Files.{listing, entries_of, take_files-loop, add_files-loop}
use binsort.Binsort.Genorder.Cut.{way_length, closing_length, IsWithin, listing-cut}

-- The files taken from a whole list into an array that holds anything.
abbrev pub taken : Cells DirEntry → List DirEntry → Taken
taken space es = take_files es (record { order = space; num = 0; list = [] })

-- A round trip may start anywhere.
tour-IsReordered : (o : Cells DirEntry) (num i0 : ℕ) → IsReordered num o (tour o num i0)
tour-IsReordered o num i0 = record {
  from = place num i0;
  inside = λ i h. mod-lt (i0 + i) (omega (arith, h));
  once = λ i j h k e.
      place_injective num (i0 % num) (mod-lt i0 (omega (arith, h))) i j h k
        (mod-add-mod i0 num i ∙ e ∙ sym (mod-add-mod i0 num j));
  same = λ i h. refl;
}

-- The list at the end: what was left of it, if it is kept, and the files from behind the starting position on.
end_order-listing :
    (dist : Distances) (no_dirs : Bool) (t : Taken) (s : Shared)
    → end_order dist no_dirs t s
      ≡ (if no_dirs then [] else t.list)
        ++ listing (tour s.order t.num ((getdist dist s.order t.num).1 + 1)) 0 t.num
unfolding end_order
end_order-listing dist no_dirs t s =
    add_files-loop t.num 0 s.order t.num (getdist dist s.order t.num).1
      (if no_dirs then [] else t.list)

module _ (dist : Distances) (space : Cells DirEntry) (es : List DirEntry) (s : Shared)
    (steps : Reachable dist (taken space es).num (start_order dist (taken space es)) s) where
  -- Whatever steps the workers have made, the list ends as what was left of it, or with `b_NoDirs`
  -- nothing, and behind it the files of the list at the start in another order: none is lost or doubled.
  pub end_order-IsReordered :
      (no_dirs : Bool)
      → (x : Cells DirEntry) × (end_order dist no_dirs (taken space es) s
          ≡ (if no_dirs then [] else entries_of false es) ++ listing x 0 (taken space es).num)
        × IsReordered (taken space es).num (taken space es).order x
        × (listing (taken space es).order 0 (taken space es).num ≡ entries_of true es)
  unfolding start_order listing
  end_order-IsReordered no_dirs =
      let t = taken space es in
      let (files, rest) = take_files-loop es (record { order = space; num = 0; list = [] }) in
      let i0 = (getdist dist s.order t.num).1 + 1 in
      (
        tour s.order t.num i0,
        end_order-listing dist no_dirs t s
            ∙ ap (λ l. (if no_dirs then [] else l) ++ listing (tour s.order t.num i0) 0 t.num) rest,
        IsReordered-trans (workers_reorder dist t.num (start_order dist t) s refl steps)
            (tour-IsReordered s.order t.num i0),
        files,
      )

  -- Once no range is under way, the distance that the workers kept is the length of the way through the
  -- files of the list and the step from the last back to the first, and no two neighbours in the list are
  -- farther apart than that step; if every file has no index or one of a row, and the distances are symmetric.
  pub end_order_correct :
      IsSymmetric dist
      → IsIndexed dist (taken space es).order (taken space es).num
      → s.ranges ≡ []
      → let out = end_order dist true (taken space es) s in
        (s.distance ≡ pos (way_length dist out + closing_length dist out))
        × IsWithin dist (closing_length dist out) out
  unfolding start_order listing way_length closing_length IsWithin getdist getdist_loop
  end_order_correct sym_dist rows done = elim (dec_lt 0 t.num) [
    | yes some_file ↦
        let (length, within) = listing-cut dist s.order t.num some_file in
        (rw made (distance ∙ ap pos (sym length)), rw made within)
    | no none ↦
        let no_file : t.num ≡ 0 = omega (arith, none) in
        let empty =
          made ∙ ap (listing (tour s.order t.num ((getdist dist s.order t.num).1 + 1)) 0) no_file in
        (
          rw empty (distance ∙ ap (λ n. pos (getdist dist s.order n).0) no_file ∙ nothing),
          rw empty tt,
        )
  ]
    where
      t : Taken
      t = taken space es

      made :
          end_order dist true t s
          ≡ listing (tour s.order t.num ((getdist dist s.order t.num).1 + 1)) 0 t.num
      made = end_order-listing dist true t s

      distance : s.distance ≡ pos (getdist dist s.order t.num).0
      distance = workers_distance dist t.num t.order s sym_dist rows steps done

      nothing : pos (getdist dist s.order 0).0 ≡ pos (0 + 0)
      nothing = refl
