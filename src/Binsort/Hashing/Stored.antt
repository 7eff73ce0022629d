-- ===== src/Binsort/Hashing/Stored.antt =====
-- The stored words of a print are a print again.
use binsort.Base.{
  ℕ, suc, ◌*◌, ◌<◌, ◌≤◌, ◌≡◌, refl, ◌∙◌, inl, inr, Option, none, some, true, List, Cells, arith,
}
use binsort.Simhash.Crc.Shingles.{length}
use binsort.Simhash.Global.{
  ok, Simhash, FileMemory, simhash_file, simhash_nshingle, simhash_nfeature,
}
use binsort.Simhash.Global.Sketch.{shingle_hashes}
use binsort.Simhash.Global.Print.{IsPrint, IsAmple, simhash_file_correct, simhash_file_short}
use binsort.Binsort.Distances.{HashNode, simhash_init}
use binsort.Binsort.Hashing.{
  success, hashing, simhash_get, simhash_create, copy_words, store_hash, worker_hash,
}

same_words-IsPrint :
    (n : ℕ) (hs : List ℕ) (hi hi' : Simhash)
    → hi'.nfeature ≡ hi.nfeature
    → ((j : ℕ) → j < hi.nfeature → hi'.feature j ≡ hi.feature j)
    → IsPrint n hs hi
    → IsPrint n hs hi'
same_words-IsPrint n hs hi hi' size same p = record {
  descending = λ j h.
      omega (arith, p.descending j (omega arith), same j (omega arith), same (suc j) (omega arith));
  within = omega (arith, p.within);
  sound = λ j h. rw (same j (omega arith)) (p.sound j (omega arith));
  complete = λ w a. elim (p.complete w a) [
    | inl (j, h, e) ↦ inl (j, omega arith, same j h ∙ e)
    | inr (full, below) ↦
        inr (omega arith, λ j h. omega (arith, below j (omega arith), same j (omega arith)))
  ];
}

stored-IsPrint :
    (n : ℕ) (hs : List ℕ) (hi : Simhash) (cells : Cells ℕ)
    → IsPrint n hs hi
    → IsPrint n hs (simhash_init (copy_words hi.nfeature hi.feature cells) (hi.nfeature * 4))
unfolding simhash_init copy_words
stored-IsPrint n hs hi cells p = same_words-IsPrint n hs hi _ (omega arith) (λ j h. ground arith) p

worker_hash_ran :
    (mem : FileMemory) (cells : Cells ℕ) (f : List ℕ) (hi : Simhash)
    → simhash_file mem f ≡ ok hi
    → worker_hash mem (some cells) (some f)
      ≡ ok (
        success,
        some (record { hash = copy_words hi.nfeature hi.feature cells; size = hi.nfeature * 4 }),
      )
unfolding worker_hash store_hash simhash_get
worker_hash_ran mem cells f hi e = rw (e, worker_hash) refl

-- With memory, a file of at least 8 bytes that opens gets a hash node from which simhash_init makes the
-- print of the file.
pub worker_hash_correct :
    (mem : FileMemory) (cells : Cells ℕ) (f : List ℕ)
    → IsAmple mem
    → simhash_nshingle ≤ length f
    → (node : HashNode) × (worker_hash mem (some cells) (some f) ≡ ok (success, some node))
      × IsPrint simhash_nfeature
          (shingle_hashes simhash_nshingle f)
          (simhash_init node.hash node.size)
worker_hash_correct mem cells f a h =
    let (hi, ran, print, size) = simhash_file_correct mem f a h in
    (
      record { hash = copy_words hi.nfeature hi.feature cells; size = hi.nfeature * 4 },
      worker_hash_ran mem cells f hi ran,
      stored-IsPrint simhash_nfeature (shingle_hashes simhash_nshingle f) hi cells print,
    )

-- A file of fewer than 8 bytes gets no hash node and the error of hashing.
pub worker_hash_short :
    (mem : FileMemory) (space : Option (Cells ℕ)) (f : List ℕ)
    → length f < simhash_nshingle
    → worker_hash mem space (some f) ≡ ok (hashing, none)
unfolding worker_hash
worker_hash_short mem space f h = rw (simhash_file_short mem f h, worker_hash) refl

-- simhash_create of what simhash_get gives, with memory, is a print of the same number of features, with the
-- same features in its place, and with the shingle size of this library.
pub simhash_create-simhash_get :
    (hi : Simhash) (cells : Cells ℕ)
    → (hi' : Simhash) × (simhash_create true (some cells) (simhash_get hi).0 (simhash_get hi).1
        ≡ some hi')
      × (hi'.nfeature ≡ hi.nfeature)
      × ((j : ℕ) → j < hi.nfeature → hi'.feature j ≡ hi.feature j)
      × (hi'.nshingle ≡ simhash_nshingle)
unfolding simhash_create simhash_get copy_words
simhash_create-simhash_get hi cells = (_, refl, omega arith, λ j h. ground arith, refl)
