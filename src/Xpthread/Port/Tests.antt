-- ===== src/Xpthread/Port/Tests.antt =====
-- The theorems on message ports at two ports of two threads.
use binsort.Base.{ℕ, ◌<◌, ◌≡◌, refl, true, false, some, [], ◌∷◌, update, arith}
use binsort.Xpthread.Port.{putmsg, getmsg, replymsg}
use binsort.Xpthread.Port.Fifo.{IsSystem, putmsg-AreQueues, getmsg-AreQueues}
use binsort.Xpthread.Port.Reply.{request_reply}
use binsort.Xpthread.Port.Sample.{
  two_ports, two_threads, no_messages, two_threads-IsSystem, IsNew-message,
}

putmsg-AreQueues_example :
    IsSystem 2 (putmsg 1 (some 0) 7 two_threads) (update no_messages 1 (7 ∷ []))
putmsg-AreQueues_example =
    putmsg-AreQueues 2 1 (some 0) 7 two_threads no_messages (omega arith) two_threads-IsSystem
      IsNew-message

one_put : IsSystem 2 (putmsg 1 (some 0) 7 two_threads) (update no_messages 1 (7 ∷ []))
one_put =
    putmsg-AreQueues 2 1 (some 0) 7 two_threads no_messages (omega arith) two_threads-IsSystem
      IsNew-message

getmsg-AreQueues_example :
    ((getmsg 1 (putmsg 1 (some 0) 7 two_threads)).0 ≡ some 7)
    × IsSystem 2
        (getmsg 1 (putmsg 1 (some 0) 7 two_threads)).1
        (update (update no_messages 1 (7 ∷ [])) 1 [])
getmsg-AreQueues_example =
    getmsg-AreQueues 2 1 7 [] (putmsg 1 (some 0) 7 two_threads) (update no_messages 1 (7 ∷ []))
      (omega arith) one_put refl

request_reply_example :
    let s1 = putmsg 1 (some 0) 7 two_threads in
    let s2 = (getmsg 1 s1).1 in
    let s3 = (replymsg 7 s2).1 in
    ((getmsg 1 s1).0 ≡ some 7)
    × ((replymsg 7 s2).0 ≡ false)
    × ((x : ℕ)
        → x < 32
        → (two_ports 0).port_signal x ≡ true
        → (s3.threads (two_ports 0).sig_thread).sig_state x ≡ true)
    × ((getmsg 0 s3).0 ≡ some 7)
request_reply_example =
    request_reply 2 1 0 7 two_threads no_messages (omega arith) (omega arith) (omega arith)
      two_threads-IsSystem IsNew-message refl refl
