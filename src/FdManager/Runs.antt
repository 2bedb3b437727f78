-- ===== src/FdManager/Runs.antt =====
-- A run of the descriptor table's theorem on the table that the constructor makes.
use exhy.Common.{true, some}
use exhy.FdManager.{FdManager, Stat}

-- Every descriptor is a socket.
abbrev sockets : Stat
sockets fd = some true
