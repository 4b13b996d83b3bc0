-- ===== src/Stun/Attr/Start.antt =====
-- A message that was just begun is well formed.
use p2p_cluster.Common.{ℕ, ◌<◌, refl, arith}
use p2p_cluster.Common.Memory.{Mem}
use p2p_cluster.Stun.Words.{IsBytes, put16-IsBytes, put32-IsBytes, blit-IsBytes}
use p2p_cluster.Stun.Types.Laws.{Class, make, make-IsType}
use p2p_cluster.Stun.Header.{stun_init_buffer_str, stun_tid_message_cpy, stun_init_command_str}
use p2p_cluster.Stun.Header.Laws.{stun_init_command_str-IsStarted}
use p2p_cluster.Stun.Attr.Walk.{IsMessage, stop}

-- Of any class and any of the 4096 methods, in a buffer of bytes, and with random bytes for a
-- transaction id, the message that `stun_init_command_str` begins is well formed.
pub stun_init_command_str-IsMessage :
    (c : Class) (method : ℕ) (buf tid : Mem)
    → method < 4096
    → IsBytes buf
    → IsBytes tid
    → IsMessage (stun_init_command_str (make c method) buf tid)
unfolding stun_init_command_str stun_init_buffer_str stun_tid_message_cpy
stun_init_command_str-IsMessage c method buf tid h b t =
    let s = stun_init_command_str-IsStarted (make c method) buf tid (make-IsType c method h).2 in
    record {
      bytes =
          blit-IsBytes _ tid 8 12
            (put32-IsBytes _ 4 _ (
              put16-IsBytes _ 2 0
                (put16-IsBytes _ 0 _ (blit-IsBytes buf (λ _. 0) 0 20 b (λ i. omega arith)))))
            t;
      stated = omega (arith, s.body_lem);
      aligned = refl;
      tiles = stop refl;
    }
