-- ===== src/Kernel/Permissions/Examples.antt =====
-- Tests of the kernel's permissions.
use arona_os.Prelude.{codes, List, [], ◌∷◌}
use arona_os.Kernel.Permissions.{
  Capability, process_execution, rust_dev_environment_template, PurposeGrant, new,
}
use arona_os.Kernel.Permissions.Port.{
  GrantOp, use_it, expand_by, look, run, IsWithinTemplate, run-IsWithinTemplate,
}

abbrev build : PurposeGrant
build = new 7 (codes "build") (rust_dev_environment_template 1) [] 10

abbrev cargo : Capability
cargo = process_execution (codes "cargo.exe")

abbrev work : List GrantOp
work =
    expand_by 12 cargo
    ∷ look 200
    ∷ expand_by 201 (process_execution (codes "rm.exe"))
    ∷ use_it 300
    ∷ []

run-IsWithinTemplate_example :
    IsWithinTemplate
      (rust_dev_environment_template 1)
      (run (rust_dev_environment_template 1) work build)
run-IsWithinTemplate_example =
    run-IsWithinTemplate (rust_dev_environment_template 1) work build
      (record { within = tt; unique = tt })
