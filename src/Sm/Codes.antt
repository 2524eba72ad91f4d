-- ===== src/Sm/Codes.antt =====
-- The error codes of sdk/include/shared/sm_err.h that the security monitor returns.
use keystone_workspace.Base.{ℕ}

abbrev pub success : ℕ
success = 0

abbrev pub unknown_error : ℕ
unknown_error = 100000

abbrev pub interrupted : ℕ
interrupted = 100002

abbrev pub pmp_failure : ℕ
pmp_failure = 100003

abbrev pub not_destroyable : ℕ
not_destroyable = 100005

abbrev pub region_overlaps : ℕ
region_overlaps = 100006

abbrev pub not_accessible : ℕ
not_accessible = 100007

abbrev pub illegal_argument : ℕ
illegal_argument = 100008

abbrev pub not_running : ℕ
not_running = 100009

abbrev pub not_resumable : ℕ
not_resumable = 100010

abbrev pub edge_call_host : ℕ
edge_call_host = 100011

abbrev pub not_initialized : ℕ
not_initialized = 100012

abbrev pub no_free_resource : ℕ
no_free_resource = 100013

abbrev pub sbi_prohibited : ℕ
sbi_prohibited = 100014

abbrev pub illegal_pte : ℕ
illegal_pte = 100015

abbrev pub not_fresh : ℕ
not_fresh = 100016

abbrev pub deprecated : ℕ
deprecated = 100099

abbrev pub not_implemented : ℕ
not_implemented = 100100
