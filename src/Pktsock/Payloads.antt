-- ===== src/Pktsock/Payloads.antt =====
-- process_packet keeps the payloads that were accepted at their places, until their block is handed over.
use serendip6_reobs.Base.{
  ℕ, ◌+◌, ◌*◌, ◌/◌, ◌%◌, ◌≤◌, ◌<◌, ◌≡◌, ◌⊎◌, inl, inr, ok, arith, ◌∙◌, ap, leb, ltb, ◌==◌, ==_cases,
  true, false, Bool-cases, some,
}
use serendip6_reobs.Base.Arith.{mul-le_right}
use mathlib.Core.Option.{some-injective}
use serendip6_reobs.Config.{Config, fast_of}
use serendip6_reobs.Databuf.{Hashpipe, InputBlock}
use serendip6_reobs.Window.{expects, misses, move}
use serendip6_reobs.Pktsock.{Frame, PktState, nm, max_out_of_seq}
use serendip6_reobs.Pktsock.Header.{get_header}
use serendip6_reobs.Pktsock.Process.{process_packet, take_packet, fast_offset}
use serendip6_reobs.Pktsock.Ring.{IsUsable, CallsSucceed}
use serendip6_reobs.Pktsock.Trace.{prepared, shape, Follows}
use serendip6_reobs.Pktsock.Start.{process_packet-leads}
use serendip6_reobs.Pktsock.Written.{take_packet-bad, expected-takes, ignored-block}
use serendip6_reobs.Pktsock.Assembly.{
  payload_of, IsWhole, Assembly, receive, HasPayloads, move-expected, move-ignored, taken-good,
}

module _ (n : ℕ) (u : IsUsable (fast_of n)) {hp : Hashpipe} (k : CallsSucceed hp) where
  open u use {mcnts}

  -- Where a payload comes from after a packet that is expected: it was there, or it is that of the packet.
  data Origin (f : Frame) (a : Assembly) (m : ℕ) (pay : ℕ → ℕ) : Type 0 where
    old :
        a.latest m ≡ some pay
        → (leb (fast_of n).n_source_nodes (get_header (fast_of n) f).sid ≡ true)
          ⊎ ((get_header (fast_of n) f).mcnt == m ≡ false)
        → Origin f a m pay
    new :
        leb (fast_of n).n_source_nodes (get_header (fast_of n) f).sid ≡ false
        → (get_header (fast_of n) f).mcnt ≡ m
        → payload_of f ≡ pay
        → Origin f a m pay

  origin :
      (f : Frame) (a : Assembly) (m : ℕ) (pay : ℕ → ℕ)
      → expects (shape (fast_of n)) a.window (get_header (fast_of n) f).mcnt ≡ true
      → (receive (fast_of n) f a).latest m ≡ some pay
      → Origin f a m pay
  origin f a m pay expected e =
      elim (Bool-cases (leb (fast_of n).n_source_nodes (get_header (fast_of n) f).sid)) [
        | inl bad ↦ old (rw (expected, bad) at e) (inl bad)
        | inr good ↦ elim (==_cases (get_header (fast_of n) f).mcnt m) [
          | inl (this, equal) ↦
              new good this (some-injective (payload_of f) pay (rw (expected, good, equal) at e))
          | inr (_, unequal) ↦ old (rw (expected, good, unequal) at e) (inr unequal)
        ]
      ]

  expected-byte :
      (s : PktState hp) {t : PktState hp} {r : ℕ} (a : Assembly) (now : ℕ × ℕ) (f : Frame) (m : ℕ)
      (pay : ℕ → ℕ) (i : ℕ)
      → IsWhole f
      → HasPayloads n s a
      → process_packet (fast_of n) now f s ≡ ok (t, r)
      → expects (shape (fast_of n)) a.window (get_header (fast_of n) f).mcnt ≡ true
      → a.window.seq * nm (fast_of n) ≤ m
      → m < a.window.seq * nm (fast_of n) + 2 * nm (fast_of n)
      → i < 4096
      → Origin f a m pay
      → (t.db.block (m / nm (fast_of n) % (fast_of n).n_input_blocks)).bytes
          (fast_offset (fast_of n) m + i)
        ≡ pay i
  expected-byte s {t} a now f m pay i whole has e expected lo hi in_place from =
      let (s1, r1, took, same) = expected-takes u k s now f whole.frame has.follows e expected in
      rw (← took)
        (by_origin s1 r1 (λ j. ap (λ (x : ℕ → ℕ). x (fast_offset (fast_of n) m + i)) (same j)) from)
    where
      c : Config
      c = fast_of n

      by_origin :
          (s1 : PktState hp) (r1 : ℕ)
          → ((j : ℕ)
              → (s1.db.block j).bytes (fast_offset (fast_of n) m + i)
                ≡ (s.db.block j).bytes (fast_offset (fast_of n) m + i))
          → Origin f a m pay
          → ((take_packet
                  (fast_of n)
                  ((get_header (fast_of n) f).mcnt / nm (fast_of n) % (fast_of n).n_input_blocks)
                  r1
                  (get_header (fast_of n) f)
                  f
                  s1).0.db.block
                (m / nm (fast_of n) % (fast_of n).n_input_blocks)).bytes
              (fast_offset (fast_of n) m + i)
            ≡ pay i
      by_origin s1 r1 same (old before (inl bad)) =
          rw (take_packet-bad (fast_of n) _ r1 (get_header (fast_of n) f) f s1 bad)
            (same _ ∙ has.placed m pay before lo i in_place)
      by_origin s1 r1 same (old before (inr unequal)) =
          elim (Bool-cases (leb (fast_of n).n_source_nodes (get_header (fast_of n) f).sid)) [
            | inl bad ↦
                rw (take_packet-bad (fast_of n) _ r1 (get_header (fast_of n) f) f s1 bad)
                  (same _ ∙ has.placed m pay before lo i in_place)
            | inr good ↦
                taken-good n u k s1 a.window.seq r1 (get_header (fast_of n) f) f m i whole.size
                  (ground (arith, good)) (ground (arith, expected)) (ground (arith, expected)) lo hi
                  in_place
                ∙ rw unequal (same _ ∙ has.placed m pay before lo i in_place)
          ]
      by_origin s1 r1 same (new good this payload) =
          taken-good n u k s1 a.window.seq r1 (get_header (fast_of n) f) f m i whole.size
            (ground (arith, good)) (ground (arith, expected)) (ground (arith, expected)) lo hi
            in_place
          ∙ ground (arith, this)
          ∙ ap (λ (x : ℕ → ℕ). x i) payload

  -- In a usable SOURCE_FAST build, while the hashpipe calls succeed: when process_packet returns on a whole
  -- frame, the new state has the window and the payloads that are then to be there.
  pub receive-HasPayloads :
      (s : PktState hp) {t : PktState hp} {r : ℕ} (a : Assembly) (now : ℕ × ℕ) (f : Frame)
      → IsWhole f
      → HasPayloads n s a
      → process_packet (fast_of n) now f s ≡ ok (t, r)
      → HasPayloads n t (receive (fast_of n) f a)
  receive-HasPayloads s {t} a now f whole has e =
      let (follows, _) = process_packet-leads u k s now f whole.frame has.follows e in
      elim (Bool-cases (expects (shape c) a.window mcnt)) [
        | inl expected ↦
            (let (grow, _) = move-expected c mcnt a.window expected in
              record {
                follows = follows;
                below = λ m pay got. omega (
                  arith,
                  grow,
                  mul-le_right a.window.seq (move (shape c) mcnt a.window).seq (nm c) grow,
                  below_old expected m pay (origin f a m pay expected got),
                );
                placed = λ m pay got lo i in_place.
                    (let from = origin f a m pay expected got in
                      expected-byte s a now f m pay i whole has e expected
                        (omega (
                          arith,
                          lo,
                          mul-le_right a.window.seq (move (shape c) mcnt a.window).seq (nm c) grow,
                        ))
                        (below_old expected m pay from) in_place from);
              })
        | inr other ↦ elim (Bool-cases (misses (shape c) a.window mcnt)) [
          | inl near ↦
              kept follows (λ m pay got. rw (other, near) at got)
                (move-ignored c mcnt a.window other (inl near))
                (ignored-block u k s now f whole.frame has.follows e other (inl near))
          | inr far ↦ elim (Bool-cases (ltb (max_out_of_seq c) (a.window.strays + 1))) [
            | inl many ↦ record {
              follows = follows;
              below = λ m pay got. (let d = rw (other, far, many) at got in cc);
              placed = λ m pay got lo i in_place. (let d = rw (other, far, many) at got in cc);
            }
            | inr few ↦
                kept follows (λ m pay got. rw (other, far, few) at got)
                  (move-ignored c mcnt a.window other (inr few))
                  (ignored-block u k s now f whole.frame has.follows e other (inr few))
          ]
        ]
      ]
    where
      c : Config
      c = fast_of n

      mcnt : ℕ
      mcnt = (get_header (fast_of n) f).mcnt

      kept :
          Follows c (prepared c t) (move (shape c) mcnt a.window)
          → ((m : ℕ) (pay : ℕ → ℕ)
              → (receive (fast_of n) f a).latest m ≡ some pay
              → a.latest m ≡ some pay)
          → (move (shape c) mcnt a.window).seq ≡ a.window.seq
          → ((j : ℕ) → t.db.block j ≡ s.db.block j)
          → HasPayloads n t (receive (fast_of n) f a)
      kept follows before stays same = record {
        follows = follows;
        below = λ m pay got. rw stays (has.below m pay (before m pay got));
        placed = λ m pay got lo i in_place.
            ap (λ (b : InputBlock). b.bytes (fast_offset c m + i))
              (same (m / nm c % c.n_input_blocks))
            ∙ has.placed m pay (before m pay got) (rw stays at lo) i in_place;
      }

      below_old :
          expects (shape (fast_of n)) a.window (get_header (fast_of n) f).mcnt ≡ true
          → (m : ℕ) (pay : ℕ → ℕ) → Origin f a m pay
          → m < a.window.seq * nm (fast_of n) + 2 * nm (fast_of n)
      below_old expected m pay (old before why) = has.below m pay before
      below_old expected m pay (new good this payload) = ground (arith, expected, this)
