-- ===== src/Util/Tests.antt =====
-- Runs of the questions.
use procenv.Prelude.{◌≡◌, refl, some, [], ◌∷◌, true, false, ok, codes}
use procenv.Util.{in_chroot, container_type, starts_with, has_vxid}

chroot : in_chroot (record { root = some 2; bsd_self = false; self = some 77 }) ≡ ok true
unfolding in_chroot
chroot = refl

vserver :
    container_type (record {
      console = some (5, 1);
      vz = false;
      bc = false;
      status = some (codes "Name: a\n" ∷ codes "VxID: 3\n" ∷ []);
    })
    ≡ codes "vserver"
unfolding container_type has_vxid starts_with
vserver = refl
