-- ===== src/Binsort/Genhashes/Tests.antt =====
-- The theorem on the numbers of hashes at three entries, with the replies in another order.
use binsort.Base.{
  ℕ, zero, suc, ◌<◌, ◌≡◌, refl, true, false, Option, none, some, [], ◌∷◌, map, Cells, update,
  IsAmong,
}
use binsort.Binsort.Order.{DirEntry}
use binsort.Binsort.Distances.{HashNode}
use binsort.Binsort.Genhashes.{Hashes, send_files, take_replies}
use binsort.Binsort.Genhashes.Numbered.{index_at, bare, IsNumbered, take_replies-IsNumbered}

abbrev some_node : HashNode
some_node = record { hash = λ j. 0; size = 4 }

abbrev other_node : HashNode
other_node = record { hash = λ j. 9; size = 8 }

abbrev entry : ℕ → DirEntry
entry i = record { name = i ∷ []; index = none; is_file = true; is_dir = false }

abbrev folder : DirEntry
folder = record { name = 100 ∷ []; index = none; is_file = false; is_dir = true }

-- Three files and a directory; the first file has no hash.
abbrev unnumbered : Hashes
unnumbered = record {
  entries = entry 0 ∷ folder ∷ entry 1 ∷ entry 2 ∷ [];
  hashes = [];
  num_hashes = 0;
}

abbrev nodes : Cells (Option HashNode)
nodes = update (update (λ i. none) 2 (some some_node)) 3 (some other_node)

two_workers : send_files 2 unnumbered.entries 0 0 ≡ (0, 0) ∷ (2, 1) ∷ (3, 0) ∷ []
unfolding send_files
two_workers = refl

second_first : (take_replies nodes (3 ∷ 0 ∷ 2 ∷ []) unnumbered).hashes ≡ other_node ∷ some_node ∷ []
unfolding take_replies
second_first = refl

none-at : (p i : ℕ) → index_at unnumbered.entries p ≡ some i → ⊥
unfolding index_at
none-at zero i e = cc
none-at (suc zero) i e = cc
none-at (suc (suc zero)) i e = cc
none-at (suc (suc (suc zero))) i e = cc
none-at (suc (suc (suc (suc p)))) i e = cc

unnumbered-IsNumbered : IsNumbered nodes unnumbered
unnumbered-IsNumbered = record {
  counted = refl;
  own = λ p i e. absurd (none-at p i e);
  once = λ p q i e e'. absurd (none-at p i e);
}

take_replies-IsNumbered_example :
    let h = take_replies nodes (3 ∷ 0 ∷ 2 ∷ []) unnumbered in
    IsNumbered nodes h
    × ((q : ℕ) (node : HashNode)
        → IsAmong q (3 ∷ 0 ∷ 2 ∷ [])
        → nodes q ≡ some node
        → q < 4
        → (i : ℕ) × (index_at h.entries q ≡ some i))
    × (map bare h.entries ≡ map bare unnumbered.entries)
take_replies-IsNumbered_example =
    take_replies-IsNumbered nodes (3 ∷ 0 ∷ 2 ∷ []) unnumbered unnumbered-IsNumbered
