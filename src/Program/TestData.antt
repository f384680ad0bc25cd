-- ===== src/Program/TestData.antt =====
-- A platform and a world for small runs.
use procenv.Prelude.{
  List, ℤ, Bytes, negsuc, ltb, if◌then◌else◌, ℕ, none, some, [], ◌∷◌, Bool, true, false, pos, codes,
  leb, pure,
}
use procenv.Pstring.{Decode}
use procenv.Output.{same}
use procenv.Program.Show.{Ops}
use procenv.Program.Show.Process.{Accounts}
use procenv.Program.Show.Stat.{Files}
use procenv.Program.Show.Network.{Ifaddr, Families, host}
use procenv.Program.Main.{World}

-- ASCII.
abbrev pub ascii : Decode
ascii t = some t

abbrev pub printable : ℕ → Bool
printable c = leb 32 c

-- A platform that provides nothing.
abbrev pub no_ops : Ops
no_ops = record {
  driver_name = codes "none";
  driver_file = codes "none";
  signal_map = [];
  if_flag_map = [];
  personality_map = [];
  personality_flag_map = [];
  get_kernel_bits = none;
  show_capabilities = none;
  show_cgroups = none;
  show_clocks = none;
  show_confstrs = none;
  show_cpu_affinities = none;
  show_cpu = none;
  show_extended_if_flags = none;
  show_fds = none;
  show_io_priorities = none;
  show_mounts = none;
  show_msg_queues = none;
  show_namespaces = none;
  show_oom = none;
  show_prctl = none;
  show_rlimits = none;
  show_security_module = none;
  show_semaphores = none;
  show_shared_mem = none;
  show_timezone = none;
  show_libs = none;
  handle_memory = none;
  handle_numa_memory = none;
  handle_proc_branch = none;
  handle_scheduler_type = none;
  in_vm = none;
}

abbrev pub root_account : Accounts
root_account = record { getpwuid = λ u. some (codes "root"); getgrgid = λ g. some (codes "wheel") }

abbrev pub test_files : Files
test_files = record {
  exists = λ p. same p (codes "/bin/ls");
  cwd = codes "/";
  path = codes "/opt:/bin:/usr";
  path_max = 4096;
}

abbrev pub test_families : Families
test_families = record {
  af_inet = 2;
  af_inet6 = 10;
  link_level = 17;
  iff_broadcast = 2;
  iff_pointopoint = 16;
}

-- An interface of a family.
abbrev pub loopback : ℕ → Ifaddr
loopback family = record {
  ifa_name = codes "lo";
  ifa_flags = 73;
  ifa_addr = some (record { family = family; nameinfo = host (codes "127.0.0.1") });
  ifa_netmask = none;
  ifa_broadaddr = none;
  ifa_dstaddr = none;
  hwaddr = none;
  mtu = pos 65536;
}

-- The order of bytes.
abbrev pub strcmp : Bytes → Bytes → ℤ
strcmp [] [] = pos 0
strcmp [] (y ∷ t) = negsuc 0
strcmp (x ∷ s) [] = pos 1
strcmp (x ∷ s) (y ∷ t) =
    let rest = strcmp s t in if ltb x y then negsuc 0 else if ltb y x then pos 1 else rest

abbrev pub insert_at : (Bytes → Bytes → ℤ) → Bytes → List Bytes → List Bytes
insert_at compar x [] = x ∷ []
insert_at compar x (y ∷ ys) =
    let rest = insert_at compar x ys in elim (compar y x) [ negsuc n ↦ y ∷ rest | _ ↦ x ∷ y ∷ ys ]

abbrev pub insertion_sort : (Bytes → Bytes → ℤ) → List Bytes → List Bytes
insertion_sort compar [] = []
insertion_sort compar (x ∷ xs) = insert_at compar x (insertion_sort compar xs)

abbrev pub test_world : World
test_world = record {
  build_package = record {
    name = codes "procenv";
    version = codes "1";
    string = codes "procenv 1";
    mode = codes "privileged";
    format_version = codes "2";
  };
  build = record {
    package_name = codes "procenv";
    package_version = codes "1";
    package_string = codes "procenv 1";
    authors = codes "a";
    reproducible = false;
    format_version = 2;
  };
  ops = no_ops;
  argv = codes "procenv" ∷ codes "-A" ∷ [];
  user = record {
    passwd = record {
      pw_name = codes "root";
      pw_gecos = [];
      pw_dir = codes "/root";
      pw_shell = codes "/bin/sh";
      pw_gid = 0;
    };
    proc_name = codes "procenv";
    ctrl_terminal = codes "/dev/tty";
    pid = pos 7;
    ppid = pos 1;
    sid = pos 7;
    login = none;
    pgroup = pos 7;
    fg_pgroup = pos 7;
    uid = 0;
    euid = 0;
    suid = 0;
    gid = 0;
    egid = 0;
    sgid = 0;
    has_ctty = true;
    is_console = false;
  };
  accounts = root_account;
  getgroups = λ size. some [];
  group_rounds = 2;
  qsort = λ compar. insertion_sort compar;
  strcoll = strcmp;
  environ = codes "A=b" ∷ [];
  getenv = λ name. none;
  priority = record { process = pos 0; pgrp = pos 0; user = pos 0 };
  pagesize = pos 4096;
  uts = record {
    sysname = codes "s";
    nodename = codes "n";
    release = codes "r";
    version = codes "v";
    machine = codes "m";
    domainname = none;
  };
  sysconf_map = [];
  sysconf = λ n. pos 0;
  rusage = none;
  char_bit = 8;
  types = [];
  locale_map = [];
  setlocale = λ n. none;
  policies = [];
  threads = record {
    stack_size = 8192;
    scope_system = some true;
    guard_size = some 4096;
    schedparam = none;
    inherit_sched = none;
    concurrency = none;
  };
  target = record {
    os = codes "Linux";
    arch = codes "x64";
    sizeof_int = 4;
    sizeof_long = 8;
    sizeof_long_long = 8;
    sizeof_pointer = 8;
    char_bit = 8;
    one = 1 ∷ 0 ∷ 0 ∷ 0 ∷ [];
  };
  clock = none;
  sigprocmask = true;
  signals = record { sigismember = λ n. pos 0; sigaction = λ n. none; strsignal = λ n. none };
  files = test_files;
  query = λ p. none;
  program_name = codes "procenv";
  families = test_families;
  ifaddrs = none;
  misc = record {
    umask_value = 18;
    cwd = codes "/";
    root = codes "/";
    roots = record { root = some 2; bsd_self = false; self = some 2 };
    container = record { console = none; vz = false; bc = false; status = none };
    linux_version_code = none;
    personality = 0;
  };
  show_libc = pure tt;
  show_compiler = pure tt;
  show_ranges = pure tt;
  show_tty_attrs = pure tt;
  usage = pure tt;
}
