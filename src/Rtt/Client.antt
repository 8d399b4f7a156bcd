-- ===== src/Rtt/Client.antt =====
-- set/rtt/rtt_client.cpp: the class `RttClient`, with the ways in which `Connect` ends.
use ex_netlink.Base.{ℕ, List, [], ◌==◌, if◌then◌else◌, length}
use ex_netlink.Sockops.Calls.{Result, returned, failed}
use ex_netlink.Rtt.Package.{
  sizeof_rtt_package, package_bytes, package_of, request, received, result,
}

-- An exception, a failed assertion, or the pair that is returned.
pub data Connected : Type 0 where
  throws : Connected
  asserts : Connected
  gives : ℕ × ℕ → Connected

-- Behind write(2), which took `written` bytes: what read(2) returned, and the time behind it.
unfoldable pub finish : ℕ → List ℕ → ℕ → Connected
finish written reply recv_time =
    if written == sizeof_rtt_package
    then (if length reply == sizeof_rtt_package
        then gives (result (received (package_of reply)) recv_time)
        else asserts)
    else asserts

-- `Connect`, by the results of inet_net_pton(3) and connect(2), of which the second is dropped. The
-- bytes of the request come first.
unfoldable pub connect : Result → Result → ℕ → ℕ → List ℕ → ℕ → List ℕ × Connected
connect (failed e) connected now written reply recv_time = ([], throws)
connect (returned n) connected now written reply recv_time =
    (package_bytes (request now), finish written reply recv_time)
