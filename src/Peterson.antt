-- ===== src/Peterson.antt =====
-- peterson.cpp: two processes, each a sequence of single shared accesses (`volatile` reads and
-- writes, taken as sequentially consistent, as the file's comment assumes). A schedule names the
-- process that moves next.
mod Classic
mod Tweaked
mod Tests
use modern_cpp_ds.Common.{◌≡◌, Bool, true, false, List, [], ◌∷◌, if◌then◌else◌}

-- `process`: "process numbers 0,1 allowed only"
pub data Process : Type 0 where
  first second : Process

-- `1 - process`
abbrev pub other : Process → Process
other first = second
other second = first

abbrev pub same : Process → Process → Bool
same first first = true
same second second = true
same _ _ = false

-- Where a process stands.
pub data Pc : Type 0 where
  outside : Pc  -- before the first statement of `enter`
  flagged : Pc  -- `interested[process] = true` is done, the next store of `enter` is not
  testing : Pc  -- at the loop, about to read `interested[other]`
  reading : Pc  -- `interested[other]` was true, about to read `turn`
  passed : Pc  -- the loop of `enter_region` is left, its `turn = process` is not done
  critical : Pc
  leaving : Pc  -- `interested[process] = false` is done, the store of `turn` is not

-- `turn` and `interested[N]`, with the two processes.
pub record World : Type 0 where
  pub turn : Process
  pub interested_first : Bool
  pub interested_second : Bool
  pub pc_first : Pc
  pub pc_second : Pc

abbrev pub interested : World → Process → Bool
interested w first = w.interested_first
interested w second = w.interested_second

abbrev pub pc : World → Process → Pc
pc w first = w.pc_first
pc w second = w.pc_second

abbrev pub set_interested : World → Process → Bool → World
set_interested w first b = record w { interested_first = b }
set_interested w second b = record w { interested_second = b }

abbrev pub goto : Process → Pc → World → World
goto first c w = record w { pc_first = c }
goto second c w = record w { pc_second = c }

-- Static storage: `turn` is 0 and nobody is interested.
abbrev pub start : World
start = record {
  turn = first;
  interested_first = false;
  interested_second = false;
  pc_first = outside;
  pc_second = outside;
}

-- `enter` and `exit`: the next access of process `p`, which stands at `c`.
unfoldable pub access : Process → Pc → World → World
access p outside w = goto p flagged (set_interested w p true)
access p flagged w = goto p testing (record w { turn = other p })
access p testing w = goto p (if interested w (other p) then reading else critical) w
access p reading w = goto p (if same w.turn (other p) then testing else critical) w
access p critical w = goto p outside (set_interested w p false)
access p passed w = w
access p leaving w = w

unfoldable pub step : Process → World → World
unfolding access
step p w = access p (pc w p) w

unfoldable pub run : List Process → World → World
unfolding step
run [] w = w
run (p ∷ ps) w = run ps (step p w)

-- `enter_region` and `leave_region`, in the same way.
unfoldable pub region_access : Process → Pc → World → World
region_access p outside w = goto p testing (set_interested w p true)
region_access p testing w = goto p (if interested w (other p) then reading else passed) w
region_access p reading w = goto p (if same w.turn (other p) then testing else passed) w
region_access p passed w = goto p critical (record w { turn = p })
region_access p critical w = goto p leaving (set_interested w p false)
region_access p leaving w = goto p outside (record w { turn = other p })
region_access p flagged w = w

unfoldable pub region_step : Process → World → World
unfolding region_access
region_step p w = region_access p (pc w p) w

unfoldable pub region_run : List Process → World → World
unfolding region_step
region_run [] w = w
region_run (p ∷ ps) w = region_run ps (region_step p w)
