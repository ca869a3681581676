-- ===== src/Handoff/Tests.antt =====
-- Two threads that hand over to each other.
use retrace_cpython.Base.{◌≡◌, refl, true, some}
use retrace_cpython.Handoff.{Entry, find_entry, change_entry, hand_to}
use retrace_cpython.Handoff.Steps.{System, Steps, stays, more, enter, initial, parked, enters}
use retrace_cpython.Handoff.Wakeup.{Returns, parked-Returns}

-- Thread 1 hands over to thread 2 and parks; then thread 2 hands over to thread 1 and parks.
abbrev first_parks : System
first_parks = enters initial 1 (hand_to true true initial.handoff 2 1)

abbrev second_parks : System
second_parks = enters first_parks 2 (hand_to true true first_parks.handoff 1 2)

handed_over : Steps initial second_parks
handed_over = more (more stays (enter 1 2 true true refl)) (enter 2 1 true true refl)

abbrev woken : Entry
woken = record { thread_id = 1; permit = true; waiting = true; gate_open = true }

first_is_parked : second_parks.phase 1 ≡ parked
unfolding hand_to find_entry change_entry
first_is_parked = refl

first_is_woken : find_entry second_parks.handoff.entries 1 ≡ some woken
unfolding hand_to find_entry change_entry
first_is_woken = refl

parked-Returns_example : Returns second_parks 1
parked-Returns_example = parked-Returns handed_over 1 woken first_is_parked first_is_woken refl
