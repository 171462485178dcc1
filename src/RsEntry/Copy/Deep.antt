-- ===== src/RsEntry/Copy/Deep.antt =====
-- What a copy of a schedule shares with its source: nothing.
use dvb_vulture.Prelude.{◌≡◌, List}
use dvb_vulture.RsEntry.{RsEntry}
use dvb_vulture.RsEntry.Neq.{Strings}
use dvb_vulture.RsEntry.Neq.Shown.{shown, shown_sched}
use dvb_vulture.RsEntry.Copy.Names.{Each, Live, Fresh, Extends}

-- What holds of a copied entry, or schedule, in the memory `m'` afterwards.
abbrev CloneHolds : Strings → RsEntry → Strings × RsEntry → Type 0
CloneHolds m e (m', copy) =
    Extends m m' × (shown m' copy ≡ shown m e) × Live m' copy.name × Fresh m copy.name

abbrev SchedHolds : Strings → List RsEntry → Strings × List RsEntry → Type 0
SchedHolds m src (m', copy) =
    Extends m m'
    × (shown_sched m' copy ≡ shown_sched m src)
    × Each (Live m') copy
    × Each (Fresh m) copy
