-- ===== src/Xpthread/Queue.antt =====
-- The message queues of xpthread.c on a store of words, laid out as the lists of binsort.c: a message at `n`
-- has `xpmsg_Succ` in word `n` and `xpmsg_Pred` in word `n + 1`; a queue at `h` has `xpmq_Head`, `xpmq_Tail`
-- and `xpmq_TailPred` in words `h`, `h + 1` and `h + 2`.
pub mod Refine
use binsort.Base.{ℕ, ◌+◌, Bool, Option, none, some, Cells, update, ◌==◌, if◌then◌else◌}

-- ISLISTEMPTY
unfoldable pub is_list_empty : ℕ → Cells ℕ → Bool
is_list_empty h m = m (h + 2) == h

unfoldable pub initlist : ℕ → Cells ℕ → Cells ℕ
initlist h m = let m1 = update m (h + 2) h in let m2 = update m1 (h + 1) 0 in update m2 h (h + 1)

unfoldable pub addtail : ℕ → ℕ → Cells ℕ → Cells ℕ
addtail h n m =
    let temp = m (h + 2) in
    let m1 = update m (h + 2) n in
    let m2 = update m1 n (h + 1) in let m3 = update m2 (n + 1) temp in update m3 temp n

unfoldable pub remhead : ℕ → Cells ℕ → Option ℕ × Cells ℕ
remhead h m =
    let temp = m h in
    let m1 = update m h (m temp) in
    let m2 = update m1 (m1 temp + 1) h in if m temp == 0 then (none, m) else (some temp, m2)
