-- ===== src/Core/Drive.antt =====
-- crates/burnout-core/src/drive.rs: what Burnout knows about one drive.
use burnout.Prelude.{ℕ, String, Bool, false, ◌||◌, Option, none}

pub data Bus : Type 0 where
  usb sata ata sas scsi nvme pci_express sd mmc fire_wire thunderbolt apple_fabric raid virtual
        unknown :
      Bus

pub data Connection : Type 0 where
  internal external unknown : Connection

pub record DriveInfo : Type 0 where
  pub id : String
  pub node : String
  pub name : String
  pub vendor : Option String
  pub model : Option String
  pub serial : Option String
  pub size_bytes : ℕ
  pub logical_sector_size : ℕ
  pub physical_sector_size : Option ℕ
  pub bus : Bus
  pub connection : Connection
  pub removable_media : Bool
  pub system : Bool
  pub read_only : Bool

abbrev pub is_external : Connection → Bool
is_external Connection.internal = false
is_external Connection.external = Bool.true
is_external Connection.unknown = false

unfoldable pub removable : DriveInfo → Bool
removable d = d.removable_media || is_external d.connection

-- The word that the `BUS` column prints.
unfoldable pub label : Bus → String
label Bus.usb = "USB"
label Bus.sata = "SATA"
label Bus.ata = "ATA"
label Bus.sas = "SAS"
label Bus.scsi = "SCSI"
label Bus.nvme = "NVMe"
label Bus.pci_express = "PCIe"
label Bus.sd = "SD"
label Bus.mmc = "MMC"
label Bus.fire_wire = "FireWire"
label Bus.thunderbolt = "TB"
label Bus.apple_fabric = "Fabric"
label Bus.raid = "RAID"
label Bus.virtual = "Virtual"
label Bus.unknown = "?"

-- `DriveInfo::new`: the fields that every host reports, and the defaults for the rest.
unfoldable pub new : String → String → String → DriveInfo
new id node name = record {
  id = id;
  node = node;
  name = name;
  vendor = none;
  model = none;
  serial = none;
  size_bytes = 0;
  logical_sector_size = 512;
  physical_sector_size = none;
  bus = Bus.unknown;
  connection = Connection.unknown;
  removable_media = false;
  system = false;
  read_only = false;
}
