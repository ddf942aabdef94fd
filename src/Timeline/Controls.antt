-- ===== src/Timeline/Controls.antt =====
-- timeline.py and envoy_common.py: the controls and the defaults that a timeline shows, and when
-- each of them held.
use cactus_runner.Prelude.{
  ◌+◌, ◌*◌, List, [], ◌∷◌, ◌++◌, Option, none, some, map, min, keep, ltb, if◌then◌else◌,
}
use cactus_runner.Prelude.Int.{ℤ, eqb_ℤ, leb_ℤ}
use cactus_runner.Exec.{pure, on_option, ◌>>=◌}
use cactus_runner.Definitions.{Time}
use cactus_runner.Services.{Services, SiteControlRow, SiteControlDefaultRow}
use cactus_runner.EnvoyCommon.{Query, query_active_site}
use cactus_runner.Timeline.{Entity, Interval, ArchiveColumns}

abbrev archive_columns : Option Time → Option Time → ArchiveColumns
archive_columns deleted archived = record { deleted_time = deleted; archive_time = archived }

abbrev control : SiteControlRow → Entity SiteControlRow
control c = record { row = c; changed_time = c.changed_time; archive = none }

abbrev archived_control : SiteControlRow → Entity SiteControlRow
archived_control c = record {
  row = c;
  changed_time = c.changed_time;
  archive = some (archive_columns c.deleted_time c.archive_time);
}

abbrev default_control : SiteControlDefaultRow → Entity SiteControlDefaultRow
default_control d = record { row = d; changed_time = d.changed_time; archive = none }

abbrev archived_default : SiteControlDefaultRow → Entity SiteControlDefaultRow
archived_default d = record {
  row = d;
  changed_time = d.changed_time;
  archive = some (archive_columns d.deleted_time d.archive_time);
}

module _ (S : Services) where
  unfoldable pub get_site_controls_active_archived : Query S (List (Entity SiteControlRow))
  get_site_controls_active_archived = do
    site ← query_active_site S
    on_option site (pure []) (λ active. do
      controls ← S.dynamic_operating_envelopes
      archived ← S.archive_dynamic_operating_envelopes
      let of_site = keep (λ c. eqb_ℤ c.site_id active.site_id)
      pure (map control (of_site controls) ++ map archived_control (of_site archived)))

  unfoldable pub get_site_control_group_defaults_with_archive :
      Query S (List (Entity SiteControlDefaultRow))
  get_site_control_group_defaults_with_archive = do
    defaults ← S.site_control_group_defaults
    archived ← S.archive_site_control_group_defaults
    pure (map default_control defaults ++ map archived_default archived)

abbrev interval : {A : Type 0} → Entity A → (begin end : Time) → Interval A
interval e begin end = record { begin = begin; end = end; entity = e }

-- start_time + timedelta(seconds=duration_seconds)
abbrev end_of : SiteControlRow → Time
end_of c = c.start_time + c.duration_seconds * 1000000

-- The control until a time after its start, and no longer than it lasts.
abbrev cut_at : Option Time → Entity SiteControlRow → (end : Time) → Time
cut_at none e end = end
cut_at (some t) e end = if ltb e.row.start_time t then min t end else end

abbrev until : Option Time → Entity SiteControlRow → (end : Time) → List (Interval SiteControlRow)
until none e end = []
until (some t) e end =
    if ltb e.row.start_time t then interval e e.row.start_time (min t end) ∷ [] else []

-- The intervals of a control that is not superseded: until it is deleted, and until it is archived
-- but no longer than that, for a row of the archive.
unfoldable pub control_intervals : Entity SiteControlRow → List (Interval SiteControlRow)
control_intervals e =
    let end = end_of e.row in
    if e.row.superseded then [] else elim e.archive [
      | none ↦ interval e e.row.start_time end ∷ []
      | some columns ↦
          until columns.deleted_time e end
          ++ until columns.archive_time e (cut_at columns.deleted_time e end)
    ]

unfoldable pub group_intervals : ℤ → List (Entity SiteControlRow) → List (Interval SiteControlRow)
unfolding control_intervals
group_intervals group [] = []
group_intervals group (e ∷ rest) =
    let others = group_intervals group rest in
    if eqb_ℤ e.row.site_control_group_id group then control_intervals e ++ others else others

abbrev insert_id : ℤ → List ℤ → List ℤ
insert_id a [] = a ∷ []
insert_id a (b ∷ rest) =
    let others = insert_id a rest in
    if eqb_ℤ a b then b ∷ rest else if leb_ℤ a b then a ∷ b ∷ rest else b ∷ others

-- sorted(set(c.site_control_group_id for c in all_controls))
unfoldable pub group_ids : List (Entity SiteControlRow) → List ℤ
group_ids [] = []
group_ids (e ∷ rest) = insert_id e.row.site_control_group_id (group_ids rest)

-- datetime(9999, 1, 1)
abbrev far_future : Time
far_future = 253370764800000000

-- An archived default held until it was archived; its archive_time is not null.
abbrev default_end : Entity SiteControlDefaultRow → Time
default_end e = elim e.archive [
  | none ↦ far_future
  | some columns ↦ elim columns.archive_time [ none ↦ far_future | some t ↦ t ]
]

unfoldable pub default_interval : Entity SiteControlDefaultRow → Interval SiteControlDefaultRow
default_interval e = interval e e.changed_time (default_end e)
