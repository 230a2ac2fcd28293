-- ===== src/Permissions/Catalog.antt =====
-- arona_agy/arona_permissions/src/catalog.rs: the predefined templates. Each takes its id and the
-- time at which it is made.
use arona_os.Prelude.{codes, List, [], ◌∷◌}
use arona_os.Guardian.{Uuid, DateTime}
use arona_os.Permissions.{
  file_system_access, network_port, process_execution, read_write, tcp, udp, PermissionTemplate,
  new_predefined,
}

abbrev pub fivem_server_template : Uuid → DateTime → PermissionTemplate
fivem_server_template id now =
    new_predefined id now (codes "FiveMサーバー") (codes "FiveM/QBCoreサーバーの運営・スクリプト開発に必要な権限セット") (
      file_system_access (codes "C:/fivem") read_write
      ∷ network_port 30120 tcp
      ∷ network_port 30120 udp
      ∷ process_execution (codes "FXServer.exe")
      ∷ [])

abbrev pub rust_dev_environment_template : Uuid → DateTime → PermissionTemplate
rust_dev_environment_template id now =
    new_predefined id now (codes "Rust開発環境") (codes "Rustプロジェクトのビルド・依存関係取得に必要な権限セット") (
      file_system_access (codes "C:/dev") read_write
      ∷ process_execution (codes "cargo.exe")
      ∷ process_execution (codes "rustc.exe")
      ∷ network_port 443 tcp
      ∷ [])

-- The templates are made in order, each with an id and a time of its own.
abbrev pub default_catalog : Uuid → DateTime → Uuid → DateTime → List PermissionTemplate
default_catalog id now id' now' =
    fivem_server_template id now ∷ rust_dev_environment_template id' now' ∷ []
