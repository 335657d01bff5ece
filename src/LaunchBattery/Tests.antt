-- ===== src/LaunchBattery/Tests.antt =====
-- The new battery, and one that is all but full.
use iiw_udp_gbn.Base.{◌≡◌, refl, [], ◌∷◌, none, some, arith, ltb, if◌then◌else◌}
use iiw_udp_gbn.Base.Int.{pos, negsuc}
use iiw_udp_gbn.LaunchBattery.{
  ready, LaunchBattery, new_launch_pad, new_launch_battery, is_launch_pad_available,
  add_to_launch_battery,
}
use iiw_udp_gbn.LaunchBattery.Adding.{
  AreLoaded, add_to_launch_battery-fits, add_to_launch_battery-full,
}
use iiw_udp_gbn.LaunchBattery.Ring.{IsBattery, new_launch_battery-IsBattery}
use iiw_udp_gbn.Packet.{new_packet}

add_to_launch_battery-fits_example :
    (b' : LaunchBattery) × (add_to_launch_battery new_launch_battery (new_packet ∷ new_packet ∷ [])
      ≡ some (b', pos 0))
    × IsBattery b' 1022
    × (b'.next_available_index ≡ 2)
    × AreLoaded 0 2 0 (new_packet ∷ new_packet ∷ []) b'.battery
    × (b'.battery 7 ≡ new_launch_pad)
add_to_launch_battery-fits_example =
    add_to_launch_battery-fits new_launch_battery new_packet (new_packet ∷ []) 1024 7
      new_launch_battery-IsBattery (omega arith)

-- The pads from 1 on hold packets.
abbrev one_free : LaunchBattery
one_free = record {
  battery = λ i.
      if ltb i 1
      then new_launch_pad
      else record new_launch_pad { packet = some new_packet; status = ready };
  contiguous_pads_available = pos 1;
  next_available_index = 0;
}

one_free-IsBattery : IsBattery one_free 1
unfolding is_launch_pad_available
one_free-IsBattery = record {
  ring = record { next_in = omega arith; fits = omega arith; frees = λ i. ground arith };
  counted = refl;
}

two_too_many :
    add_to_launch_battery one_free (new_packet ∷ new_packet ∷ []) ≡ some (one_free, negsuc 0)
two_too_many =
    add_to_launch_battery-full one_free (new_packet ∷ new_packet ∷ []) 1 one_free-IsBattery
      (omega arith)

-- no packets
nothing_added : add_to_launch_battery new_launch_battery [] ≡ none
unfolding add_to_launch_battery
nothing_added = refl
