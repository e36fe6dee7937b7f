-- ===== src/Ata/Tests.antt =====
-- Runs of kernel/ata.c.
use red_panda_os.Prelude.{◌≡◌, refl, []}
use red_panda_os.Ata.{
  ata_drive, setup, ata_read, wait_not_busy, not_busy_within, program, io_delay, drive_byte,
  wait_drq, drq_within,
}
use red_panda_os.Ata.Lba.{ready_drive, register}

read_drive : register ata_drive (ata_read ready_drive 0x0A123456 []).1 ≡ 0xEA
unfolding ata_read setup wait_not_busy not_busy_within program io_delay drive_byte wait_drq
    drq_within
read_drive = refl
