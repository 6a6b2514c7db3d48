-- ===== src/Commands/Tables.antt =====
-- safety/commands.py: the fixed tables.
use proofcoder.Base.{String, List, [], ◌∷◌, ◌++◌, if◌then◌else◌}
use proofcoder.Base.Text.{mem_text}

abbrev pub blocked_executables : List String
blocked_executables =
    "apt" ∷ "apt-get" ∷ "bash" ∷ "brew" ∷ "cargo" ∷ "chgrp" ∷ "chmod" ∷ "chown" ∷ "cmd" ∷ "curl"
    ∷ "del" ∷ "dnf" ∷ "doas" ∷ "erase" ∷ "fish" ∷ "ftp" ∷ "gem" ∷ "kill" ∷ "killall" ∷ "npm"
    ∷ "pacman" ∷ "pip" ∷ "pip3" ∷ "powershell" ∷ "pwsh" ∷ "rd" ∷ "rm" ∷ "rmdir" ∷ "runas" ∷ "scp"
    ∷ "sh" ∷ "ssh" ∷ "sudo" ∷ "taskkill" ∷ "wget" ∷ "winget" ∷ "wsl" ∷ "yum" ∷ "zsh" ∷ []

abbrev pub known_executables : List String
known_executables = "git" ∷ "pytest" ∷ "ruff" ∷ []

abbrev pub gxx_executable_names : List String
gxx_executable_names = "g++" ∷ "g++.exe" ∷ []

abbrev pub python_aliases : List String
python_aliases = "py" ∷ "py.exe" ∷ []

abbrev pub python_modules : List String
python_modules = "compileall" ∷ "pytest" ∷ "ruff" ∷ "unittest" ∷ []

abbrev pub builtin_executable_names : List String
builtin_executable_names =
    "g++" ∷ "python" ∷ "python3" ∷ "py" ∷ (known_executables ++ blocked_executables)

abbrev pub git_read_subcommands : List String
git_read_subcommands = "diff" ∷ "log" ∷ "ls-files" ∷ "rev-parse" ∷ "show" ∷ "status" ∷ []

abbrev pub git_write_subcommands : List String
git_write_subcommands =
    "add" ∷ "am" ∷ "branch" ∷ "checkout" ∷ "cherry-pick" ∷ "clean" ∷ "clone" ∷ "commit" ∷ "config"
    ∷ "fetch" ∷ "gc" ∷ "init" ∷ "merge" ∷ "mv" ∷ "pull" ∷ "push" ∷ "rebase" ∷ "remote" ∷ "reset"
    ∷ "restore" ∷ "revert" ∷ "rm" ∷ "stash" ∷ "submodule" ∷ "switch" ∷ "tag" ∷ "worktree" ∷ []

-- what is taken out of the write subcommands
abbrev pub git_refused_subcommands : List String
git_refused_subcommands = "clone" ∷ "config" ∷ "fetch" ∷ "pull" ∷ "push" ∷ "remote" ∷ []

abbrev pub without : List String → List String → List String
without taken [] = []
without taken (x ∷ xs) = let rest = without taken xs in if mem_text x taken then rest else x ∷ rest

abbrev pub git_confirm_subcommands : List String
git_confirm_subcommands = without git_refused_subcommands git_write_subcommands

abbrev pub git_blocked_options : List String
git_blocked_options =
    "--config-env" ∷ "--exec-path" ∷ "--ext-diff" ∷ "--git-dir" ∷ "--no-index" ∷ "--output"
    ∷ "--pathspec-from-file" ∷ "--textconv" ∷ "--work-tree" ∷ []

abbrev pub pytest_path_options : List String
pytest_path_options =
    "--basetemp" ∷ "--confcutdir" ∷ "--cov-config" ∷ "--html" ∷ "--ignore" ∷ "--ignore-glob"
    ∷ "--json-report-file" ∷ "--junit-xml" ∷ "--junitxml" ∷ "--log-file" ∷ "--rootdir" ∷ []

abbrev pub pytest_value_options : List String
pytest_value_options =
    "--capture" ∷ "--color" ∷ "--durations" ∷ "--durations-min" ∷ "--import-mode" ∷ "--lfnf"
    ∷ "--maxfail" ∷ "--tb" ∷ "-k" ∷ "-m" ∷ "-o" ∷ "-p" ∷ []

abbrev pub ruff_path_options : List String
ruff_path_options = "--config" ∷ "--output-file" ∷ "--stdin-filename" ∷ []

abbrev pub ruff_value_options : List String
ruff_value_options =
    "--exclude" ∷ "--extend-exclude" ∷ "--extension" ∷ "--line-length" ∷ "--output-format"
    ∷ "--target-version" ∷ "-e" ∷ []

abbrev pub ruff_blocked_options : List String
ruff_blocked_options = "--fix" ∷ "--fix-only" ∷ "--unsafe-fixes" ∷ []
