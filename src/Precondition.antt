-- ===== src/Precondition.antt =====
-- precondition.py: resetting the database of the utility server. The SQL scripts are commands of
-- the services; the pause for notifications changes no state.
use cactus_runner.Exec.{pure, try_except, ◌>>=◌, ◌>>◌}
use cactus_runner.Services.{
  Services, delete_all_site_control_groups, truncate_all_tables, truncate_playlist_tables,
}
use cactus_runner.World.{Run, call, send}

module _ (S : Services) where
  unfoldable pub reset_db : Run S (Unit {0})
  reset_db = send S truncate_all_tables

  unfoldable pub reset_playlist_db : Run S (Unit {0})
  reset_playlist_db = do
    subscriptions ← call S S.subscription_count
    try_except (send S delete_all_site_control_groups) (λ _. pure tt)
    send S truncate_playlist_tables
