-- ===== src/Pipeline/Incoming.antt =====
-- The input buffer as the queue between the packet thread and the GPU thread: what is handed over and not
-- yet taken, behind it the two blocks that the packet thread holds.
use serendip6_reobs.Base.{
  ℕ, ◌+◌, ◌*◌, ◌%◌, ◌/◌, ◌≤◌, ◌<◌, ◌≡◌, ◌≢◌, ok, sym, ap, ◌∙◌, arith, true, false, some, none, List,
  [], ◌∷◌, ◌++◌, length, length-snoc, update,
}
use serendip6_reobs.Base.Arith.{div-eq}
use native.Mathlib.Nat.{mod-add-mod}
use native.Mathlib.Decide.{dec_lt}
use mathlib.Core.Path.{subst}
use serendip6_reobs.Config.{Config}
use serendip6_reobs.Databuf.{Hashpipe, InputDatabuf, InputBlock}
use serendip6_reobs.Window.{Window, move, hands_over}
use serendip6_reobs.Window.Order.{hands_over-some, hands_over-none}
use serendip6_reobs.Pktsock.{Frame, PktState, nm}
use serendip6_reobs.Pktsock.Header.{get_header}
use serendip6_reobs.Pktsock.Process.{process_packet}
use serendip6_reobs.Pktsock.Ring.{IsUsable, CallsSucceed}
use serendip6_reobs.Pktsock.Trace.{IsFrame, prepared, shape, Follows}
use serendip6_reobs.Pktsock.Start.{process_packet-leads}
use serendip6_reobs.Pktsock.Semaphores.{Uses}
use serendip6_reobs.Pktsock.Handed.{kept-none_handed, kept-handed, bytes-handed}
use serendip6_reobs.Pipeline.Ring.{
  IsFilled, IsFilled-push, Stands, Stands-kept, Stands-push, ring-ne, mod-add_self,
}
use serendip6_reobs.Pipeline.Semaphores.{Semaphores}
use serendip6_reobs.Pipeline.System.{window_of, CanAcquire}

-- A block of the input buffer has this data.
abbrev pub HasData : (ℕ → ℕ) → InputBlock → Type 0
HasData bytes b = b.bytes ≡ bytes

-- The packet thread stands for the window `w`; the blocks from number `g` on, up to the window, are filled
-- and have the data of the list.
pub record Incoming (c : Config) {hp : Hashpipe} (sem : Semaphores hp) (s : PktState hp)
    (w : Window) (g : ℕ) (q : List (ℕ → ℕ)) : Type 0 where
  pub follows : Follows c (prepared c s) w
  pub place : w.seq % c.n_input_blocks ≡ (g + length q) % c.n_input_blocks
  pub held : length q + 2 ≤ c.n_input_blocks
  pub flags : IsFilled c.n_input_blocks g (length q) (sem.filled s.db.header)
  pub contents : Stands HasData c.n_input_blocks g q s.db.block
  pub size : s.db.n_block ≡ c.n_input_blocks

module _ {c : Config} (u : IsUsable c) (three : 3 ≤ c.n_input_blocks) {hp : Hashpipe}
    (k : CallsSucceed hp) (sem : Semaphores hp) where
  open u use {mcnts, blocks}

  -- The state determines the window.
  pub window_of-Follows :
      (s : PktState hp) (w : Window) → Follows c (prepared c s) w → window_of c s ≡ w
  window_of-Follows s w fo =
      ap (λ q. record { seq = q; strays = (prepared c s).binfo.out_of_seq_cnt }) seq
      ∙ ap (λ q. record { seq = w.seq; strays = q }) fo.strays
    where
      seq : (prepared c s).binfo.mcnt_start / nm c ≡ w.seq
      seq =
          ap (λ x. x / nm c) fo.ring.start
          ∙ div-eq (w.seq * nm c) w.seq (nm c) (omega arith) (omega (arith, mcnts))

  -- The place of the window, and those after it.
  pub place-next :
      {s : PktState hp} {w : Window} {g : ℕ} {q : List (ℕ → ℕ)} (d : ℕ)
      → Incoming c sem s w g q
      → (w.seq + d) % c.n_input_blocks ≡ (g + (length q + d)) % c.n_input_blocks
  place-next {w} {g} {q} d i =
      sym (mod-add-mod w.seq c.n_input_blocks d)
      ∙ ap (λ x. (x + d) % c.n_input_blocks) i.place
      ∙ mod-add-mod (g + length q) c.n_input_blocks d
      ∙ ap (λ x. x % c.n_input_blocks) (omega arith)

  -- A filled block is not one of those that the packet thread holds.
  filled-ne :
      {s : PktState hp} {w : Window} {g : ℕ} {q : List (ℕ → ℕ)} (d e : ℕ)
      → Incoming c sem s w g q
      → d < length q
      → length q + e < c.n_input_blocks
      → (g + d) % c.n_input_blocks ≢ (w.seq + e) % c.n_input_blocks
  filled-ne {g} {q} d e i first inside same =
      ring-ne g d (length q + e) c.n_input_blocks (omega (arith, first, inside)) inside
        (omega (arith, first)) (same ∙ place-next e i)

  filled-ne_first :
      {s : PktState hp} {w : Window} {g : ℕ} {q : List (ℕ → ℕ)} (d : ℕ)
      → Incoming c sem s w g q
      → d < length q
      → (g + d) % c.n_input_blocks ≢ w.seq % c.n_input_blocks
  filled-ne_first {w} d i first same =
      filled-ne d 0 i first (omega (arith, i.held))
        (same ∙ ap (λ x. x % c.n_input_blocks) (omega arith))

  -- A packet at which nothing is handed over leaves the queue as it is.
  pub Incoming-kept :
      (s : PktState hp) {t : PktState hp} {r : ℕ} {w : Window} {g : ℕ} {q : List (ℕ → ℕ)}
      (now : ℕ × ℕ) (f : Frame)
      → IsFrame f
      → Incoming c sem s w g q
      → process_packet c now f s ≡ ok (t, r)
      → hands_over (shape c) (get_header c f).mcnt w ≡ none
      → Incoming c sem t (move (shape c) (get_header c f).mcnt w) g q
  Incoming-kept s {t} {w} {g} {q} now f b i e kept =
      let (fo, uses) = process_packet-leads u k s now f b i.follows e in
      let uses_none : Uses c none s.db t.db = subst (λ o. Uses c o s.db t.db) kept uses in
      record {
        follows = fo;
        place =
            hands_over-none (shape c) (get_header c f).mcnt w (omega (arith, blocks)) kept
            ∙ i.place;
        held = i.held;
        flags = rw uses_none.semaphores i.flags;
        contents =
            Stands-kept HasData c.n_input_blocks g q s.db.block t.db.block
              (λ d first.
                kept-none_handed u k s now f ((g + d) % c.n_input_blocks) b i.follows e kept
                  (filled-ne_first d i first) (filled-ne d 1 i first (omega (arith, i.held))))
              i.contents;
        size = uses_none.size ∙ i.size;
      }

  -- The next block to be waited for is free only if there is one beside those of the queue and the two.
  room_for :
      {s : PktState hp} {w : Window} {g : ℕ} {q : List (ℕ → ℕ)}
      → Incoming c sem s w g q
      → sem.filled s.db.header ((w.seq + 2) % c.n_input_blocks) ≡ false
      → length q + 2 < c.n_input_blocks
  room_for {s} {w} {g} {q} i free = elim (dec_lt (length q + 2) c.n_input_blocks) [
    | yes inside ↦ inside
    | no full ↦
        (let round : (w.seq + 2) % c.n_input_blocks ≡ (g + 0) % c.n_input_blocks =
            place-next 2 i
            ∙ ap (λ x. x % c.n_input_blocks) {x = g + (length q + 2)} {y = g + c.n_input_blocks}
                (omega (arith, i.held, full))
            ∙ mod-add_self g c.n_input_blocks
            ∙ ap (λ x. x % c.n_input_blocks) (omega arith) in
          let first = i.flags.flag 0 (omega (arith, three)) in
          ground (arith, ap (sem.filled s.db.header) round, first, free, i.held, full, three))
  ]

  -- The flags after a block has been handed over and the one after the next been acquired.
  flags-handed :
      {s : PktState hp} {w : Window} {g : ℕ} {q : List (ℕ → ℕ)} {now : InputDatabuf hp}
      → Incoming c sem s w g q
      → length q + 2 < c.n_input_blocks
      → Uses c (some w.seq) s.db now
      → (j : ℕ)
      → sem.filled now.header j
        ≡ update (sem.filled s.db.header) ((g + length q) % c.n_input_blocks) true j
  flags-handed {s} {w} {g} {q} {now} i room uses j =
      ap (λ h. sem.filled h j) uses.semaphores
      ∙ sem.acquire h1 ((w.seq + 2) % c.n_input_blocks) j free
      ∙ sem.fill s.db.header (w.seq % c.n_input_blocks) j
      ∙ ap (λ p. update (sem.filled s.db.header) p true j) i.place
    where
      h1 : hp.Header
      h1 = (hp.set_filled s.db.header (w.seq % c.n_input_blocks)).1

      free : sem.filled h1 ((w.seq + 2) % c.n_input_blocks) ≡ false
      free = ground (
        arith,
        sem.fill s.db.header (w.seq % c.n_input_blocks) ((w.seq + 2) % c.n_input_blocks),
        place-next 2 i,
        i.place,
        ring-ne g (length q) (length q + 2) c.n_input_blocks (omega (arith, room)) room
            (omega arith),
        ap (sem.filled s.db.header) (place-next 2 i),
        i.flags.flag (length q + 2) room,
      )

  -- A packet at which a block is handed over puts its data behind the queue.
  pub Incoming-handed :
      (s : PktState hp) {t : PktState hp} {r seq : ℕ} {w : Window} {g : ℕ} {q : List (ℕ → ℕ)}
      (now : ℕ × ℕ) (f : Frame)
      → IsFrame f
      → Incoming c sem s w g q
      → process_packet c now f s ≡ ok (t, r)
      → hands_over (shape c) (get_header c f).mcnt w ≡ some seq
      → CanAcquire c sem s (some seq)
      → Incoming c sem t
          (move (shape c) (get_header c f).mcnt w)
          g
          (q ++ ((s.db.block (seq % c.n_input_blocks)).bytes ∷ []))
  Incoming-handed s {t} {seq = seq} {w} {g} {q} now f b i e handed free =
      let (this, next) = hands_over-some (shape c) (get_header c f).mcnt w handed in
      let at_seq : seq % c.n_input_blocks ≡ (g + length q) % c.n_input_blocks =
        ap (λ x. x % c.n_input_blocks) this ∙ i.place in
      let room = room_for i (subst (λ x. CanAcquire c sem s (some x)) this free) in
      let (fo, uses) = process_packet-leads u k s now f b i.follows e in
      let uses_some : Uses c (some w.seq) s.db t.db =
        subst (λ o. Uses c o s.db t.db) (handed ∙ ap some this) uses in
      let bytes = (s.db.block (seq % c.n_input_blocks)).bytes in
      record {
        follows = fo;
        place =
            ap (λ x. x % c.n_input_blocks) next
            ∙ place-next 1 i
            ∙ ap (λ x. x % c.n_input_blocks) (omega (arith, length-snoc q bytes));
        held = omega (arith, length-snoc q bytes, room);
        flags =
            subst (λ x. IsFilled c.n_input_blocks g x (sem.filled t.db.header))
              (sym (length-snoc q bytes))
              (IsFilled-push i.flags (omega (arith, room)) (flags-handed i room uses_some));
        contents =
            Stands-push HasData c.n_input_blocks g q bytes t.db.block
              (Stands-kept HasData c.n_input_blocks g q s.db.block t.db.block
                (λ d first.
                  kept-handed u k s now f ((g + d) % c.n_input_blocks) b i.follows e
                    (filled-ne_first d i first) (filled-ne d 1 i first (omega (arith, i.held)))
                    (filled-ne d 2 i first room))
                i.contents)
              (subst (λ x. HasData bytes (t.db.block x)) at_seq
                (bytes-handed u k s now f three b i.follows e handed));
        size = uses_some.size ∙ i.size;
      }
