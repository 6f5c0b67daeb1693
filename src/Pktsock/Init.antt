-- ===== src/Pktsock/Init.antt =====
-- init of src/s6_pktsock_thread.cpp: the packet socket, and the second socket that joins the multicast
-- group. What the calls of hashpipe and of the operating system give is an argument.
use serendip6_reobs.Base.{
  ℕ, ◌+◌, ◌*◌, ◌%◌, ◌≡◌, Bool, true, false, Option, none, some, not, if◌then◌else◌, refl, sym, ap,
  ◌∙◌, arith, ◌⊎◌, ◌&&◌, Bool-cases, inl, inr,
}
use serendip6_reobs.Config.{Source}

-- PKTSOCK_BYTES_PER_FRAME, PKTSOCK_FRAMES_PER_BLOCK, PKTSOCK_NBLOCKS and PKTSOCK_NFRAMES.
abbrev pub pktsock_bytes_per_frame : ℕ
pktsock_bytes_per_frame = 16384

abbrev pub pktsock_frames_per_block : ℕ
pktsock_frames_per_block = 8

abbrev pub pktsock_nblocks : ℕ
pktsock_nblocks = 800

abbrev pub pktsock_nframes : ℕ
pktsock_nframes = pktsock_frames_per_block * pktsock_nblocks

-- The keys of the status buffer that init reads. A missing FASTBEAM or FASTPOL is the -1 of the code.
pub record InitKeys : Type 0 where
  pub bindport : Option ℕ
  pub fastbeam : Option ℕ
  pub fastpol : Option ℕ

-- Which calls succeed: malloc, hashpipe_pktsock_open, socket, bind, and the setsockopt that joins the
-- group. The other setsockopt only has its failure reported.
pub record InitCalls : Type 0 where
  pub malloc : Bool
  pub open_pktsock : Bool
  pub open_socket : Bool
  pub bind : Bool
  pub join : Bool

-- What a successful init leaves: the shape of the packet ring, the four parts of the group's address, the
-- port that the second socket is bound to, and the key BINDPORT.
pub record Ready : Type 0 where
  pub frame_size : ℕ
  pub nframes : ℕ
  pub nblocks : ℕ
  pub group : ℕ × ℕ × ℕ × ℕ
  pub sin_port : ℕ
  pub bindport : ℕ

-- How init ends: -1 is returned, pthread_exit, exit(1), or 0 is returned.
pub data InitEnd : Type 0 where
  failed exits_thread exits_process : InitEnd
  ready : Ready → InitEnd

-- The default of bindport.
abbrev pub default_bindport : Source → ℕ
default_bindport Source.source_s6 = 21302
default_bindport Source.source_dibas = 60000
default_bindport Source.source_fast = 12346

-- s6_group, if it can be told.
abbrev pub s6_group : Source → InitKeys → Option (ℕ × ℕ × ℕ × ℕ)
s6_group Source.source_s6 k = some (239, 0, 0, 1)
s6_group Source.source_dibas k = some (239, 0, 0, 1)
s6_group Source.source_fast k = elim k.fastbeam [
  | none ↦ none
  | some beam ↦ elim k.fastpol [ none ↦ none | some pol ↦ some (239, 1, beam, 3 + pol) ]
]

-- From the second socket on.
abbrev pub join_group : InitCalls → Ready → InitEnd
join_group calls r =
    if not calls.open_socket
    then InitEnd.exits_thread
    else if not calls.bind
    then InitEnd.exits_process
    else if not calls.join
    then InitEnd.exits_thread
    else InitEnd.ready r

unfoldable pub init : Source → InitKeys → InitCalls → InitEnd
init source k calls =
    if not calls.malloc
    then InitEnd.failed
    else if not calls.open_pktsock
    then InitEnd.exits_thread
    else elim (s6_group source k) [
      | none ↦ InitEnd.exits_thread
      | some group ↦ join_group calls (record {
        frame_size = pktsock_bytes_per_frame;
        nframes = pktsock_nframes;
        nblocks = pktsock_nblocks;
        group = group;
        sin_port = 12346;
        bindport = elim k.bindport [ none ↦ default_bindport source | some port ↦ port ];
      })
    ]

abbrev pub AllSucceed : InitCalls → Type 0
AllSucceed calls =
    (calls.malloc && calls.open_pktsock && calls.open_socket && calls.bind && calls.join) ≡ true

-- What init leaves for a beam and a polarization.
abbrev made_of : InitKeys → (beam pol : ℕ) → Ready
made_of k beam pol = record {
  frame_size = pktsock_bytes_per_frame;
  nframes = pktsock_nframes;
  nblocks = pktsock_nblocks;
  group = (239, 1, beam, 3 + pol);
  sin_port = 12346;
  bindport = elim k.bindport [ none ↦ 12346 | some port ↦ port ];
}

-- Whether init got ready, and with what.
abbrev is_ready : InitEnd → Bool
is_ready (InitEnd.ready r) = true
is_ready _ = false

abbrev ready_or : Ready → InitEnd → Ready
ready_or d (InitEnd.ready r) = r
ready_or d _ = d

-- If the group has been joined, the calls from `socket` on have succeeded.
join_group-ready :
    (calls : InitCalls) (r : Ready)
    → is_ready (join_group calls r) ≡ true
    → (calls.open_socket && calls.bind && calls.join ≡ true)
      × (join_group calls r ≡ InitEnd.ready r)
join_group-ready calls r e = ground arith

Option-cases : (o : Option ℕ) → (o ≡ none) ⊎ ((a : ℕ) × (o ≡ some a))
Option-cases none = inl refl
Option-cases (some a) = inr (a, refl)

init-only_if :
    (k : InitKeys) (calls : InitCalls) (r : Ready)
    → init Source.source_fast k calls ≡ InitEnd.ready r
    → AllSucceed calls
      × (beam : ℕ) × (pol : ℕ) × (k.fastbeam ≡ some beam)
      × (k.fastpol ≡ some pol)
      × (r.group ≡ (239, 1, beam, 3 + pol))
      × (r.sin_port ≡ 12346)
      × (r.nframes * r.frame_size % r.nblocks ≡ 0)
unfolding init
init-only_if k calls r e = elim (Bool-cases calls.malloc) [
  | inr no_memory ↦ absurd (never InitEnd.failed refl (rw no_memory at e))
  | inl memory ↦ elim (Bool-cases calls.open_pktsock) [
    | inr closed ↦ absurd (never InitEnd.exits_thread refl (rw (memory, closed) at e))
    | inl opened ↦ elim (Option-cases k.fastbeam) [
      | inl no_beam ↦ absurd (never InitEnd.exits_thread refl (rw (memory, opened, no_beam) at e))
      | inr (beam, has_beam) ↦ elim (Option-cases k.fastpol) [
        | inl no_pol ↦
            absurd (never InitEnd.exits_thread refl (rw (memory, opened, has_beam, no_pol) at e))
        | inr (pol, has_pol) ↦
            let made = made_of k beam pol in
            let joined : join_group calls made ≡ InitEnd.ready r =
              rw (memory, opened, has_beam, has_pol) at e in
            let (rest, same) = join_group-ready calls made (ap is_ready joined) in
            let r_made : made ≡ r = ap (ready_or made) (sym same ∙ joined) in
            (
              rw (memory, opened) rest,
              beam,
              pol,
              has_beam,
              has_pol,
              sym (ap (λ (x : Ready). x.group) r_made),
              sym (ap (λ (x : Ready). x.sin_port) r_made),
              sym (ap (λ (x : Ready). x.nframes * x.frame_size % x.nblocks) r_made),
            )
      ]
    ]
  ]
]
  where
    never : (end : InitEnd) → is_ready end ≡ false → end ≡ InitEnd.ready r → ⊥
    never end stopped same = cc

init-if :
    (k : InitKeys) (calls : InitCalls) (beam pol : ℕ)
    → AllSucceed calls
    → k.fastbeam ≡ some beam
    → k.fastpol ≡ some pol
    → (r : Ready) × (init Source.source_fast k calls ≡ InitEnd.ready r)
unfolding init
init-if k calls beam pol all has_beam has_pol =
    rw (has_beam, has_pol) (made_of k beam pol, ground arith)

-- A SOURCE_FAST thread gets ready if every call succeeds and both FASTBEAM and FASTPOL are given, and not
-- otherwise. Then, and whatever BINDPORT is, it has joined the group of its beam and polarization on port
-- 12346, and the frames fill the blocks of its packet ring without rest.
pub init_lem :
    (k : InitKeys) (calls : InitCalls)
    → ((beam pol : ℕ)
        → AllSucceed calls
        → k.fastbeam ≡ some beam
        → k.fastpol ≡ some pol
        → (r : Ready) × (init Source.source_fast k calls ≡ InitEnd.ready r))
      × ((r : Ready)
          → init Source.source_fast k calls ≡ InitEnd.ready r
          → AllSucceed calls
            × (beam : ℕ) × (pol : ℕ) × (k.fastbeam ≡ some beam)
            × (k.fastpol ≡ some pol)
            × (r.group ≡ (239, 1, beam, 3 + pol))
            × (r.sin_port ≡ 12346)
            × (r.nframes * r.frame_size % r.nblocks ≡ 0))
init_lem k calls = (init-if k calls, init-only_if k calls)
