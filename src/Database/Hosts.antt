-- ===== src/Database/Hosts.antt =====
-- The queries of internal/database/hosts.go. The table is kept in the order of ListHosts.
use fascinate.Base.{Option, none, some, List, [], ◌∷◌, if◌then◌else◌}
use fascinate.Base.Text.{Text, text_eq, trim_space}
use fascinate.Result.{not_found}
use fascinate.Database.Records.{HostRecord}
use fascinate.Database.Monad.{M, or_fail, gets, statement, ◌>>=◌, ◌>>◌}

unfoldable pub find_id : Text → List HostRecord → Option HostRecord
find_id i [] = none
find_id i (h ∷ hs) = if text_eq h.id i then some h else find_id i hs

-- GetHostByID
unfoldable pub get_host_by_id : Text → M HostRecord
get_host_by_id i = do statement; or_fail (← gets (λ w. find_id (trim_space i) w.hosts)) not_found

-- ListHosts
unfoldable pub list_hosts : M (List HostRecord)
list_hosts = do statement; gets λ w. w.hosts
