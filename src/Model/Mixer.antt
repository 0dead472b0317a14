-- ===== src/Model/Mixer.antt =====
-- pkg/model/mixer.go: the iterator that merges two iterators. The events that `Get` returns beside
-- an error are never read, so they are not kept.
pub mod Merge
pub mod Fetch
pub mod Refine
pub mod Ordered
mod Tests
use mathlib.Core.Bool.{not}
use logrange.Prelude.{ℕ, ◌≤◌, Bool, true, false, ◌&&◌, ◌||◌, ◌==◌, if◌then◌else◌, List, []}
use logrange.Prelude.Int.{pos, leb_ℤ}
use logrange.Model.Iterator.{LogEvent, Event, Got, event, eof, failed, Iterator, release_event}

pub record SrcDesc (S : Type 0) : Type 0 where
  pub it : S
  pub at_eof : Bool
  pub ev : Event

-- The state 0 is to be selected; 1 and 2 name the source of the current event, 3 is the end.
pub record Mixer (S1 S2 : Type 0) : Type 0 where
  pub src1 : SrcDesc S1
  pub src2 : SrcDesc S2
  pub st : ℕ
  pub bkwd : Bool

abbrev pub zero_event : Event
zero_event = record { le = record { timestamp = pos 0; msg = []; fields = [] }; tags = [] }

pub get_earliest : LogEvent → LogEvent → Bool
get_earliest ev1 ev2 = leb_ℤ ev1.timestamp ev2.timestamp

-- `Get` of a source within `selectState`; `false` if it fails.
pub fetch : {S : Type 0} → Iterator S → SrcDesc S → Bool × SrcDesc S
fetch i src =
    let (g, s') = i.get src.it in
    if src.at_eof then (true, src) else (elim g [
      | event e ↦ (true, record src { it = s'; ev = e })
      | eof ↦ (true, record src { it = s'; at_eof = true })
      | failed ↦ (false, record src { it = s' })
    ])

-- `Next` of the source of the current event, which drops its buffers.
abbrev pub advance : {S : Type 0} → Iterator S → SrcDesc S → SrcDesc S
advance i src = record src {
  it = i.next src.it;
  ev = record src.ev { le = release_event src.ev.le };
}

module _ {S1 S2 : Type 0} (it1 : Iterator S1) (it2 : Iterator S2)
    (sf : LogEvent → LogEvent → Bool) where
  pub init : S1 → S2 → Mixer S1 S2
  init s1 s2 = record {
    src1 = record { it = s1; at_eof = false; ev = zero_event };
    src2 = record { it = s2; at_eof = false; ev = zero_event };
    st = 0;
    bkwd = false;
  }

  pub test_func : Bool → Event → Event → Bool
  test_func bkwd e1 e2 = let res = sf e1.le e2.le in if bkwd then not res else res

  -- `false` is an error of a source.
  pub select_state : Mixer S1 S2 → Bool × Mixer S1 S2
  unfolding fetch test_func
  select_state mr =
      let (ok1, src1) = fetch it1 mr.src1 in
      let (ok2, src2) = fetch it2 mr.src2 in
      if mr.st == 0
      then (if ok1
          then (if ok2
              then (
                true,
                record mr {
                  src1 = src1;
                  src2 = src2;
                  st =
                      if src1.at_eof && src2.at_eof
                      then 3
                      else if src1.at_eof
                      then 2
                      else if src2.at_eof || test_func mr.bkwd src1.ev src2.ev
                      then 1
                      else 2;
                },
              )
              else (false, record mr { src1 = src1; src2 = src2 }))
          else (false, record mr { src1 = src1 }))
      else (true, mr)

  pub next : Mixer S1 S2 → Mixer S1 S2
  unfolding select_state
  next mr =
      let mr' = (select_state mr).1 in
      if mr'.st == 1
      then record mr' { src1 = advance it1 mr'.src1; st = 0 }
      else if mr'.st == 2
      then record mr' { src2 = advance it2 mr'.src2; st = 0 }
      else record mr' { st = 0 }

  pub get : Mixer S1 S2 → Got × Mixer S1 S2
  unfolding select_state
  get mr =
      let (ok, mr') = select_state mr in
      (
        if ok
            then (if mr'.st == 1
                then event mr'.src1.ev
                else if mr'.st == 2
                then event mr'.src2.ev
                else eof)
            else failed,
        mr',
      )

  -- A copy of the current event is kept where the source does MakeItSafe.
  pub release : Mixer S1 S2 → Mixer S1 S2
  release mr = record mr {
    src1 = record mr.src1 { it = it1.release mr.src1.it; at_eof = false };
    src2 = record mr.src2 { it = it2.release mr.src2.it; at_eof = false };
    st = if mr.st == 3 then 0 else mr.st;
  }

  pub set_backward : Mixer S1 S2 → Bool → Mixer S1 S2
  unfolding release
  set_backward mr bkwd =
      let turned = record mr {
        bkwd = bkwd;
        src1 = record mr.src1 { it = it1.set_backward mr.src1.it bkwd };
        src2 = record mr.src2 { it = it2.set_backward mr.src2.it bkwd };
      } in
      if (if mr.bkwd then bkwd else not bkwd) then mr else record (release turned) { st = 0 }

  -- The mixer behind the interface.
  abbrev pub mixer : Iterator (Mixer S1 S2)
  mixer = record { next = next; get = get; release = release; set_backward = set_backward }
