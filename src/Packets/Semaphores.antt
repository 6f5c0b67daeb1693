-- ===== src/Packets/Semaphores.antt =====
-- The semaphores along the packets of a run of a packet thread.
use serendip6_reobs.Base.{ℕ, ◌≡◌, refl, Option, some, none, List, ◌∷◌}
use serendip6_reobs.Config.{Config}
use serendip6_reobs.Databuf.{Hashpipe}
use serendip6_reobs.Packets.{semaphores_of, semaphores_along}
use serendip6_reobs.Window.{Shape, Window, move, hands_over, all_handed_over}

-- One packet, then the rest.
pub semaphores_along-step :
    (c : Config) (hp : Hashpipe) (sh : Shape) (mcnt : ℕ) (ms : List ℕ) (w : Window) (h : hp.Header)
    → semaphores_along c hp (all_handed_over sh (mcnt ∷ ms) w) h
      ≡ semaphores_along c hp
          (all_handed_over sh ms (move sh mcnt w))
          (semaphores_of c hp (hands_over sh mcnt w) h)
unfolding all_handed_over
semaphores_along-step c hp sh mcnt ms w h =
    either (hands_over sh mcnt w) (all_handed_over sh ms (move sh mcnt w))
  where
    either :
        (o : Option ℕ) (later : List ℕ)
        → semaphores_along c hp (elim o [ some seq ↦ seq ∷ later | none ↦ later ]) h
          ≡ semaphores_along c hp later (semaphores_of c hp o h)
    either none later = refl
    either (some seq) later = refl
